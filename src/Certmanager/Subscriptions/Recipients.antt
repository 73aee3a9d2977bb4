-- ===== src/Certmanager/Subscriptions/Recipients.antt =====
-- Whether the goroutines of notifyIssuerChange reach the subscriptions that they were started for.
use Prim.Native.Nat.add
use mathlib.Core.List.{append_assoc, Memᴰ}
use istio_csr.Base.{
  ℕ, suc, ◌+◌, ◌≤◌, ◌<◌, ◌≡◌, refl, sym, ap, ◌∙◌, inl, inr, ◌⊎◌, true, false, Option, List, [], ◌∷◌,
  ◌++◌, arith, length, length-append, get_elem?-length, get_elem?_above, All, map, Bool-cases,
  subst,
}
use istio_csr.Certmanager.{IssuerReference, Send, Manager}
use istio_csr.Certmanager.Subscriptions.{
  is_member, notify_from, notify_issuer_change, deliver, panicked, delivered,
}

abbrev pub IsOpen : List ℕ → ℕ → Type 0
IsOpen closed sub = is_member sub closed ≡ false

-- One goroutine for each index, in order.
abbrev sends_from : Option IssuerReference → ℕ → List ℕ → List Send
sends_from r i [] = []
sends_from r i (sub ∷ subs) = record { index = i; issuer_ref = r } ∷ sends_from r (suc i) subs

notify_from_open :
    (closed : List ℕ) (r : Option IssuerReference) (i : ℕ) (subs : List ℕ)
    → All (IsOpen closed) subs
    → notify_from closed r i subs ≡ (subs, sends_from r i subs)
unfolding notify_from
notify_from_open closed r i [] h = refl
notify_from_open closed r i (sub ∷ subs) h =
    ground (arith, notify_from_open closed r (suc i) subs h.1)

deliver_at :
    (m : Manager) (r : Option IssuerReference) (before : List ℕ) (sub : ℕ) (subs : List ℕ)
    → m.issuer_change_subscriptions ≡ before ++ sub ∷ subs
    → deliver m (record { index = length before; issuer_ref = r }) ≡ delivered sub r
unfolding deliver
deliver_at m r before sub subs e = ground (arith, get_elem?-length before sub subs)

deliver-sends_from :
    (m : Manager) (r : Option IssuerReference) (before subs : List ℕ)
    → m.issuer_change_subscriptions ≡ before ++ subs
    → map (deliver m) (sends_from r (length before) subs) ≡ map (λ sub. delivered sub r) subs
deliver-sends_from m r before [] e = refl
deliver-sends_from m r before (sub ∷ subs) e =
    let next : suc (length before) ≡ length (before ++ sub ∷ []) =
      omega (arith, length-append before (sub ∷ [])) in
    let later =
      deliver-sends_from m r (before ++ sub ∷ []) subs
        (e ∙ sym (append_assoc before (sub ∷ []) subs)) in
    rw (deliver_at m r before sub subs e, next, later)

-- The goroutines that a notification adds.
abbrev pub started_by : Manager → Option IssuerReference → List Send
started_by m r = (notify_from m.closed r 0 m.issuer_change_subscriptions).1

-- Where no subscription is closed, a notification keeps them all, and its goroutines, if they run
-- before the list changes again, send the reference once to each subscription, in order.
pub notify_issuer_change-delivers :
    (m : Manager) (r : Option IssuerReference)
    → All (IsOpen m.closed) m.issuer_change_subscriptions
    → (notify_issuer_change m r ≡ record m { pending = m.pending ++ started_by m r })
      × (map (deliver (notify_issuer_change m r)) (started_by m r)
          ≡ map (λ sub. delivered sub r) m.issuer_change_subscriptions)
unfolding notify_issuer_change deliver
notify_issuer_change-delivers m r h =
    let all_open = notify_from_open m.closed r 0 m.issuer_change_subscriptions h in
    let same : started_by m r ≡ sends_from r 0 m.issuer_change_subscriptions =
      ap (λ p. p.1) all_open in
    (
      ground (arith, all_open),
      rw same (
          deliver-sends_from (notify_issuer_change m r) r [] m.issuer_change_subscriptions
            (ap (λ p. p.0) all_open)),
    )

-- Some subscription is closed.
abbrev pub HasClosed : List ℕ → List ℕ → Type 0
HasClosed closed [] = ⊥
HasClosed closed (sub ∷ subs) = (is_member sub closed ≡ true) ⊎ HasClosed closed subs

module _ (closed : List ℕ) (r : Option IssuerReference) where
  kept-le : (i : ℕ) (subs : List ℕ) → length (notify_from closed r i subs).0 ≤ length subs
  unfolding notify_from
  kept-le i [] = omega arith
  kept-le i (sub ∷ subs) = ground (arith, kept-le (suc i) subs)

  kept-lt :
      (i : ℕ) (subs : List ℕ)
      → HasClosed closed subs
      → length (notify_from closed r i subs).0 < length subs
  unfolding notify_from
  kept-lt i [] h = absurd h
  kept-lt i (sub ∷ subs) (inl now) = ground (arith, kept-le (suc i) subs)
  kept-lt i (sub ∷ subs) (inr later) = ground (arith, kept-lt (suc i) subs later)

  HasClosed-append : (xs ys : List ℕ) → HasClosed closed xs → HasClosed closed (xs ++ ys)
  HasClosed-append [] ys h = absurd h
  HasClosed-append (x ∷ xs) ys (inl now) = inl now
  HasClosed-append (x ∷ xs) ys (inr later) = inr (HasClosed-append xs ys later)

  starts_last :
      (i : ℕ) (before : List ℕ) (last : ℕ)
      → IsOpen closed last
      → Memᴰ
          (record { index = i + length before; issuer_ref = r })
          (notify_from closed r i (before ++ last ∷ [])).1
  unfolding notify_from
  starts_last i [] last h = rw h (Memᴰ.head (ground arith))
  starts_last i (sub ∷ before) last h =
      let next : i + suc (length before) ≡ suc i + length before = omega arith in
      let later = starts_last (suc i) before last h in
      elim (Bool-cases (is_member sub closed)) [
        | inl skipped ↦ rw (next, skipped) later
        | inr kept ↦ rw (next, kept) (Memᴰ.tail later)
      ]

-- Where a closed subscription stands before the last one, and the last one is open, the
-- notification starts a goroutine whose index is past the end of the shortened list: once it runs
-- it panics, and the last subscription gets nothing.
pub notify_issuer_change-panics :
    (m : Manager) (r : Option IssuerReference) (before : List ℕ) (last : ℕ)
    → m.issuer_change_subscriptions ≡ before ++ last ∷ []
    → HasClosed m.closed before
    → IsOpen m.closed last
    → Memᴰ (record { index = length before; issuer_ref = r }) (started_by m r)
      × (deliver (notify_issuer_change m r) (record { index = length before; issuer_ref = r })
          ≡ panicked)
unfolding notify_issuer_change deliver
notify_issuer_change-panics m r before last e h o =
    let kept = (notify_from m.closed r 0 m.issuer_change_subscriptions).0 in
    let short : length kept ≤ length before = omega (
      arith,
      kept-lt m.closed r 0 m.issuer_change_subscriptions
          (subst (HasClosed m.closed) (sym e) (HasClosed-append m.closed r before (last ∷ []) h)),
      ap length e,
      length-append before (last ∷ []),
    ) in
    (
      subst
          (λ subs.
            Memᴰ (record { index = length before; issuer_ref = r })
              (notify_from m.closed r 0 subs).1)
          (sym e) (rw add.zero at (starts_last m.closed r 0 before last o)),
      ground (arith, get_elem?_above kept (length before) short),
    )
