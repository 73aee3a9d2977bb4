-- ===== src/Certmanager/Runtime/Active.antt =====
-- pkg/certmanager/certmanager.go: which issuer is active after an event, and the invariant of the
-- manager.
use istio_csr.Base.{
  ◌≡◌, ◌≢◌, refl, sym, subst, ◌↔◌, ◌⊎◌, inl, inr, Bool, true, Option, none, some, List, [], ◌∷◌,
  arith, Option-cases, ok,
}
use istio_csr.Base.Text.{Str}
use istio_csr.Base.Dict.{Dict, lookup}
use istio_csr.Certmanager.{IssuerReference, Options, Manager, has_runtime_configuration, new}
use istio_csr.Certmanager.Startup.{IsComplete, Starts, with_issuer, without_issuer, new_iff}
use istio_csr.Certmanager.Subscriptions.{notify_issuer_change}
use istio_csr.Certmanager.Runtime.{
  issuer_name_key, issuer_kind_key, issuer_group_key, Object, config_map, error_object,
  other_object, EventType, added, modified, deleted, bookmark, error, unknown, Event, ConfigError,
  issuer_of, data_errors, handle_runtime_config_issuer_change,
  handle_runtime_config_issuer_deletion, handle_event, Signal, context_done, channel_closed, event,
  watch_loop, Attempt, watch_failed, watch_made, start,
}

-- The ConfigMap has the three keys, and their values, none empty, are the parts of the issuer.
pub record Configures (cm : Dict Str) (r : IssuerReference) : Type 0 where
  pub name : lookup issuer_name_key cm ≡ some r.name
  pub kind : lookup issuer_kind_key cm ≡ some r.kind
  pub group : lookup issuer_group_key cm ≡ some r.group
  pub complete : IsComplete r

data_errors_iff : (cm : Dict Str) → (data_errors cm ≡ none) ↔ Configures cm (issuer_of cm)
unfolding data_errors issuer_of
data_errors_iff cm = ground arith

data_errors-none : {cm : Dict Str} {r : IssuerReference} → Configures cm r → data_errors cm ≡ none
unfolding data_errors
data_errors-none c = ground arith

issuer_of_unique : {cm : Dict Str} {r : IssuerReference} → Configures cm r → issuer_of cm ≡ r
unfolding issuer_of
issuer_of_unique c = ground arith

-- The object is a ConfigMap that configures the issuer.
abbrev pub Sets : Object → IssuerReference → Type 0
Sets object r = (cm : Dict Str) × (object ≡ config_map cm) × Configures cm r

pub Sets-unique :
    {object : Object} {r r' : IssuerReference} → Sets object r → Sets object r' → r ≡ r'
Sets-unique (cm, same, c) (cm', same', c') = cc (issuer_of_unique c, issuer_of_unique c')

-- The manager after an accepted change.
abbrev pub switched : Manager → IssuerReference → Manager
switched m r = notify_issuer_change (record m { active_issuer_ref = some r }) (some r)

change_object :
    (m : Manager) (t : EventType) (object : Object)
    → ((r : IssuerReference) × Sets object r
        × (handle_runtime_config_issuer_change m (record { type = t; object = object })
            ≡ (switched m r, none)))
      ⊎ (((r : IssuerReference) → ¬ Sets object r)
          × ((handle_runtime_config_issuer_change m (record { type = t; object = object })).0 ≡ m)
          × ((handle_runtime_config_issuer_change m (record { type = t; object = object })).1
              ≢ none))
unfolding handle_runtime_config_issuer_change
change_object m t (config_map cm) = elim (Option-cases (data_errors cm)) [
  | inl good ↦ inl (issuer_of cm, (cm, refl, (data_errors_iff cm).0 good), ground arith)
  | inr (es, bad) ↦ inr (
    λ r (cm', same, c).
        let one : cm ≡ cm' = cc in
        let none' = data_errors-none (subst (λ d. Configures d r) (sym one) c) in cc (bad, none'),
    ground arith,
    ground arith,
  )
]
change_object m t error_object = inr (λ r (cm, same, c). cc, refl, λ e. cc)
change_object m t other_object = inr (λ r (cm, same, c). cc, refl, λ e. cc)

-- A changed ConfigMap that has the three keys, none empty, makes its issuer active and tells every
-- subscriber; any other object gives an error and leaves the manager as it was.
pub handle_change_cases :
    (m : Manager) (e : Event)
    → ((r : IssuerReference) × Sets e.object r
        × (handle_runtime_config_issuer_change m e ≡ (switched m r, none)))
      ⊎ (((r : IssuerReference) → ¬ Sets e.object r)
          × ((handle_runtime_config_issuer_change m e).0 ≡ m)
          × ((handle_runtime_config_issuer_change m e).1 ≢ none))
handle_change_cases m e = change_object m e.type e.object

abbrev pub IsGood : Option IssuerReference → Type 0
IsGood none = Unit
IsGood (some r) = IsComplete r

-- The invariant of the manager: the issuers that it has are complete, and without an original
-- issuer there is a ConfigMap to wait for.
pub record Inv (m : Manager) : Type 0 where
  pub active : IsGood m.active_issuer_ref
  pub original : IsGood m.original_issuer_ref
  pub configured : (m.original_issuer_ref ≡ none) → has_runtime_configuration m.opts ≡ true

pub new-Inv : (k c : Bool) (opts : Options) (m : Manager) → new k c opts ≡ ok m → Inv m
new-Inv k c opts m e = from ((new_iff k c opts m).0 e).2
  where
    from : Starts opts m → Inv m
    from (with_issuer enabled complete same) =
        subst Inv (sym same)
          (record { active = complete; original = complete; configured = λ n. cc })
    from (without_issuer nothing there same) =
        subst Inv (sym same) (record { active = tt; original = tt; configured = λ n. there })

notify-Inv : (m : Manager) (r : Option IssuerReference) → Inv m → Inv (notify_issuer_change m r)
unfolding notify_issuer_change
notify-Inv m r i = record { active = i.active; original = i.original; configured = i.configured }

change-Inv : (m : Manager) (e : Event) → Inv m → Inv (handle_runtime_config_issuer_change m e).0
change-Inv m e i = elim (handle_change_cases m e) [
  | inl (r, (cm, same, c), done) ↦
      subst (λ (p : Manager × Option (List ConfigError)). Inv p.0) (sym done)
        (notify-Inv (record m { active_issuer_ref = some r }) (some r)
          (record { active = c.complete; original = i.original; configured = i.configured }))
  | inr (never, same, bad) ↦ subst Inv (sym same) i
]

deletion-Inv :
    (m : Manager) (o : Option IssuerReference)
    → m.original_issuer_ref ≡ o
    → Inv m
    → Inv (handle_runtime_config_issuer_deletion m)
unfolding handle_runtime_config_issuer_deletion
deletion-Inv m none e i =
    rw (e, handle_runtime_config_issuer_deletion)
      (record { active = tt; original = i.original; configured = i.configured })
deletion-Inv m (some r) e i =
    rw (e, handle_runtime_config_issuer_deletion)
      (notify-Inv (record m { active_issuer_ref = some r }) none
        (record {
          active = subst IsGood e i.original;
          original = i.original;
          configured = i.configured;
        }))

event-Inv :
    (m : Manager) (t : EventType) (object : Object)
    → Inv m
    → Inv (handle_event m (record { type = t; object = object }))
unfolding handle_event
event-Inv m deleted object i = deletion-Inv m m.original_issuer_ref refl i
event-Inv m added object i = change-Inv m (record { type = added; object = object }) i
event-Inv m modified object i = change-Inv m (record { type = modified; object = object }) i
event-Inv m bookmark object i = i
event-Inv m error object i = i
event-Inv m unknown object i = i

pub handle_event-Inv : (m : Manager) (e : Event) → Inv m → Inv (handle_event m e)
handle_event-Inv m e i = event-Inv m e.type e.object i

pub watch_loop-Inv : (m : Manager) (ss : List Signal) → Inv m → Inv (watch_loop m ss).0
unfolding watch_loop
watch_loop-Inv m [] i = i
watch_loop-Inv m (context_done ∷ ss) i = i
watch_loop-Inv m (channel_closed ∷ ss) i = i
watch_loop-Inv m (event e ∷ ss) i = watch_loop-Inv (handle_event m e) ss (handle_event-Inv m e i)

start-Inv : (m : Manager) (attempts : List Attempt) → Inv m → Inv (start m attempts).0
unfolding start
start-Inv m [] i = i
start-Inv m (watch_failed ∷ later) i = start-Inv m later i
start-Inv m (watch_made ss ∷ later) i =
    let j = watch_loop-Inv m ss i in ground (arith, j, start-Inv (watch_loop m ss).0 later j)

-- From New on, whatever the watcher meets, through any restarts of the watch, the active and the
-- original issuer, where there is one, have all their parts; and a manager without an original
-- issuer has a ConfigMap to wait for.
pub start-new-Inv :
    (k c : Bool) (opts : Options) (m : Manager) (attempts : List Attempt)
    → new k c opts ≡ ok m
    → Inv (start m attempts).0
start-new-Inv k c opts m attempts e = start-Inv m attempts (new-Inv k c opts m e)
