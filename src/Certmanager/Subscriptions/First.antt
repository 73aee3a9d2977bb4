-- ===== src/Certmanager/Subscriptions/First.antt =====
-- The oldest subscription, over everything that changes the manager.
use mathlib.Core.List.{Memᴰ}
use istio_csr.Base.{
  ℕ, ◌<◌, ◌≡◌, refl, sym, subst, ◌∙◌, inl, inr, Option, none, some, List, [], ◌∷◌, ◌++◌, arith,
  Bool-cases, Option-cases,
}
use istio_csr.Certmanager.{IssuerReference, Send, Manager, has_issuer_config}
use istio_csr.Certmanager.Subscriptions.{
  is_member, close, subscribe_issuer_change, notify_from, notify_issuer_change, deliver, delivered,
}
use istio_csr.Certmanager.Subscriptions.Recipients.{IsOpen, started_by}
use istio_csr.Certmanager.Waiting.{begin_wait}
use istio_csr.Certmanager.Runtime.{
  EventType, deleted, added, modified, bookmark, error, unknown, Object, Event, ConfigError,
  handle_event, handle_runtime_config_issuer_change, handle_runtime_config_issuer_deletion,
}
use istio_csr.Certmanager.Runtime.Active.{handle_change_cases}

-- The subscription is the first of the list, and is not closed; later ones have other numbers.
pub record IsFirst (sub : ℕ) (m : Manager) : Type 0 where
  pub rest : List ℕ
  pub listed : m.issuer_change_subscriptions ≡ sub ∷ rest
  pub open_still : IsOpen m.closed sub
  pub older : sub < m.next_subscription

-- The manager while the program runs, and the subscription of the TLS provider's WaitForIssuerConfig,
-- if it waits.
pub record Managed : Type 0 where
  pub manager : Manager
  pub waiting : Option ℕ

-- After the start nothing waits.
abbrev pub idle : Manager → Managed
idle m = record { manager = m; waiting = none }

-- What changes the manager after the start: the beginning and the end of a wait for an issuer, and an
-- event of the runtime configuration.
pub data Change : Type 0 where
  wait_begins wait_ends : Change
  watched : Event → Change

unfoldable pub change : Managed → Change → Managed
unfolding begin_wait close
change s wait_begins = elim s.waiting [
  | some opened ↦ s
  | none ↦
      let (begun, opened) = begin_wait s.manager in record { manager = begun; waiting = opened }
]
change s wait_ends = elim s.waiting [
  | none ↦ s
  | some opened ↦ record { manager = close s.manager opened; waiting = none }
]
change s (watched event) = record s { manager = handle_event s.manager event }

unfoldable pub change_all : Managed → List Change → Managed
unfolding change
change_all s [] = s
change_all s (c ∷ cs) = change_all (change s c) cs

module _ (sub : ℕ) where
  IsFirst-same :
      (m m' : Manager)
      → m'.issuer_change_subscriptions ≡ m.issuer_change_subscriptions
      → m'.closed ≡ m.closed
      → m'.next_subscription ≡ m.next_subscription
      → IsFirst sub m
      → IsFirst sub m'
  IsFirst-same m m' es ec en f = record {
    rest = f.rest;
    listed = es ∙ f.listed;
    open_still = rw ec f.open_still;
    older = rw en f.older;
  }

  pub notify-IsFirst :
      (m : Manager) (r : Option IssuerReference)
      → IsFirst sub m
      → IsFirst sub (notify_issuer_change m r)
  unfolding notify_issuer_change notify_from
  notify-IsFirst m r f = record {
    rest = (notify_from m.closed r 1 f.rest).0;
    listed = ground (arith, f.listed, f.open_still);
    open_still = f.open_still;
    older = f.older;
  }

  change-IsFirst :
      (m : Manager) (e : Event)
      → IsFirst sub m
      → IsFirst sub (handle_runtime_config_issuer_change m e).0
  change-IsFirst m e f = elim (handle_change_cases m e) [
    | inl (r, sets, done) ↦
        subst (λ (p : Manager × Option (List ConfigError)). IsFirst sub p.0) (sym done)
          (notify-IsFirst (record m { active_issuer_ref = some r }) (some r)
            (IsFirst-same m (record m { active_issuer_ref = some r }) refl refl refl f))
    | inr (never, same, bad) ↦ subst (IsFirst sub) (sym same) f
  ]

  deletion-IsFirst :
      (m : Manager) (o : Option IssuerReference)
      → m.original_issuer_ref ≡ o
      → IsFirst sub m
      → IsFirst sub (handle_runtime_config_issuer_deletion m)
  unfolding handle_runtime_config_issuer_deletion
  deletion-IsFirst m none e f =
      rw (e, handle_runtime_config_issuer_deletion)
        (IsFirst-same m (record m { active_issuer_ref = none }) refl refl refl f)
  deletion-IsFirst m (some r) e f =
      rw (e, handle_runtime_config_issuer_deletion)
        (notify-IsFirst (record m { active_issuer_ref = some r }) none
          (IsFirst-same m (record m { active_issuer_ref = some r }) refl refl refl f))

  handle-IsFirst :
      (m : Manager) (type : EventType) (object : Object)
      → IsFirst sub m
      → IsFirst sub (handle_event m (record { type = type; object = object }))
  unfolding handle_event
  handle-IsFirst m deleted object f = deletion-IsFirst m m.original_issuer_ref refl f
  handle-IsFirst m added object f = change-IsFirst m (record { type = added; object = object }) f
  handle-IsFirst m modified object f =
      change-IsFirst m (record { type = modified; object = object }) f
  handle-IsFirst m bookmark object f = f
  handle-IsFirst m error object f = f
  handle-IsFirst m unknown object f = f

  -- The oldest subscription is another one than that of a wait.
  pub record IsSafe (s : Managed) : Type 0 where
    pub first : IsFirst sub s.manager
    pub apart : (opened : ℕ) → s.waiting ≡ some opened → sub < opened

  begin-IsSafe : (m : Manager) → IsFirst sub m → IsSafe (change (idle m) wait_begins)
  unfolding change begin_wait subscribe_issuer_change
  begin-IsSafe m f = elim (Bool-cases (has_issuer_config m)) [
    | inl has ↦ record {
      first = IsFirst-same m _ (ground arith) (ground arith) (ground arith) f;
      apart = λ opened e. absurd (ground (arith, has));
    }
    | inr lacks ↦ record {
      first = record {
        rest = f.rest ++ m.next_subscription ∷ [];
        listed = ground (arith, f.listed);
        open_still = ground (arith, f.open_still);
        older = ground (arith, f.older);
      };
      apart = λ opened e. ground (arith, lacks, f.older);
    }
  ]

  close-IsFirst :
      (m : Manager) (opened : ℕ) → sub < opened → IsFirst sub m → IsFirst sub (close m opened)
  unfolding close is_member
  close-IsFirst m opened other f = record {
    rest = f.rest;
    listed = f.listed;
    open_still = ground (arith, f.open_still);
    older = f.older;
  }

  pub idle-IsSafe : (m : Manager) → IsFirst sub m → IsSafe (idle m)
  idle-IsSafe m f = record { first = f; apart = λ opened e. cc }

  step-IsSafe : (s : Managed) (c : Change) → IsSafe s → IsSafe (change s c)
  unfolding change
  step-IsSafe s wait_begins i = elim (Option-cases s.waiting) [
    | inl nothing ↦
        subst
          (λ (o : Option ℕ).
            IsSafe (change (record { manager = s.manager; waiting = o }) wait_begins))
          (sym nothing) (begin-IsSafe s.manager i.first)
    | inr (opened, there) ↦ subst IsSafe (ground (arith, there)) i
  ]
  step-IsSafe s wait_ends i = elim (Option-cases s.waiting) [
    | inl nothing ↦ subst IsSafe (ground (arith, nothing)) i
    | inr (opened, there) ↦ subst IsSafe (ground (arith, there)) (
        idle-IsSafe (close s.manager opened)
          (close-IsFirst s.manager opened (i.apart opened there) i.first))
  ]
  step-IsSafe s (watched e) i = record {
    first = handle-IsFirst s.manager e.type e.object i.first;
    apart = i.apart;
  }

  pub change_all-IsSafe : (s : Managed) (cs : List Change) → IsSafe s → IsSafe (change_all s cs)
  unfolding change_all
  change_all-IsSafe s [] i = i
  change_all-IsSafe s (c ∷ cs) i = change_all-IsSafe (change s c) cs (step-IsSafe s c i)

  -- A notification starts a goroutine for the oldest subscription, and that goroutine reaches it.
  pub notify-first :
      (m : Manager) (r : Option IssuerReference)
      → IsFirst sub m
      → Memᴰ (record { index = 0; issuer_ref = r }) (started_by m r)
  unfolding notify_from
  notify-first m r f =
      let first : Send = record { index = 0; issuer_ref = r } in
      let starts : first ∷ (notify_from m.closed r 1 f.rest).1 ≡ started_by m r =
        ground (arith, f.listed, f.open_still) in
      subst (Memᴰ first) starts (Memᴰ.head refl)

  pub deliver-first :
      (m : Manager) (r : Option IssuerReference)
      → IsFirst sub m
      → deliver m (record { index = 0; issuer_ref = r }) ≡ delivered sub r
  unfolding deliver
  deliver-first m r f = rw (f.listed) refl
