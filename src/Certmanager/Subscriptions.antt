-- ===== src/Certmanager/Subscriptions.antt =====
-- pkg/certmanager/certmanager.go: subscriptions to issuer changes, and the goroutines that
-- notifyIssuerChange starts to send to them.
pub mod Recipients
pub mod First
pub mod Waits
use istio_csr.Base.{
  ℕ, suc, ◌+◌, Bool, true, false, ◌||◌, not, Option, none, some, List, [], ◌∷◌, ◌++◌, nat_beq,
  if◌then◌else◌, get_elem?,
}
use istio_csr.Certmanager.{IssuerReference, Send, Manager}

unfoldable pub is_member : ℕ → List ℕ → Bool
is_member a [] = false
is_member a (x ∷ xs) = nat_beq x a || is_member a xs

-- (*IssuerChangeSubscription).Closed and Close.
abbrev pub is_closed : Manager → ℕ → Bool
is_closed m sub = is_member sub m.closed

unfoldable pub close : Manager → ℕ → Manager
close m sub = record m { closed = sub ∷ m.closed }

-- SubscribeIssuerChange: the new subscription goes to the end of the list.
unfoldable pub subscribe_issuer_change : Manager → Manager × ℕ
subscribe_issuer_change m = (
  record m {
    issuer_change_subscriptions = m.issuer_change_subscriptions ++ m.next_subscription ∷ [];
    next_subscription = suc m.next_subscription;
  },
  m.next_subscription,
)

-- The loop of notifyIssuerChange from index `i`: the subscriptions that are kept, and the
-- goroutines that are started. Each captures the index, not the subscription.
unfoldable pub notify_from : List ℕ → Option IssuerReference → ℕ → List ℕ → List ℕ × List Send
notify_from closed issuer_ref i [] = ([], [])
notify_from closed issuer_ref i (sub ∷ subs) =
    let (kept, sends) = notify_from closed issuer_ref (suc i) subs in
    if is_member sub closed
    then (kept, sends)
    else (sub ∷ kept, record { index = i; issuer_ref = issuer_ref } ∷ sends)

unfoldable pub notify_issuer_change : Manager → Option IssuerReference → Manager
notify_issuer_change m issuer_ref =
    let (kept, sends) = notify_from m.closed issuer_ref 0 m.issuer_change_subscriptions in
    record m { issuer_change_subscriptions = kept; pending = m.pending ++ sends }

-- What a goroutine does once it runs: it reads the manager's list of that moment at its index,
-- which panics out of range, and sends to the subscription that it finds there.
pub data Delivery : Type 0 where
  panicked : Delivery
  delivered : ℕ → Option IssuerReference → Delivery

unfoldable pub deliver : Manager → Send → Delivery
deliver m s = elim (get_elem? m.issuer_change_subscriptions s.index) [
  | none ↦ panicked
  | some sub ↦ delivered sub s.issuer_ref
]
