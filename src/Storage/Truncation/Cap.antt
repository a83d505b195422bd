-- ===== src/Storage/Truncation/Cap.antt =====
-- What `truncate_event_json` of backend/gg/runtime/storage.py keeps within the cap of a task's log.
use Prim.Native.Nat.{◌/◌, max}
use Prim.Native.String.{len}
use gg_agent_server.Prelude.{
  ℕ, ◌+◌, ◌-◌, ◌≤◌, ◌<◌, String, ◌≡◌, refl, sym, subst, ◌⊎◌, ap, ◌∙◌, map, List, ◌==◌, inl, inr,
  false, some, [], ◌∷◌, leb, arith, Bool-cases, Option-cases,
}
use gg_agent_server.Table.{order_by, update_where}
use gg_agent_server.Sdk.Domain.{PayloadValue, text, json, Event, EventCodec}
use gg_agent_server.Storage.Truncation.{
  Payload, set_member, omitted_payload, truncated_payload, stub, truncate_text, longer_first,
  shrink, truncate_event_json,
}

abbrev pub member_names : Payload → List String
member_names payload = map (λ (m : String × PayloadValue). m.0) payload

set_member-names :
    (key : String) (value : PayloadValue) (payload : Payload)
    → member_names (set_member key value payload) ≡ member_names payload
unfolding update_where
set_member-names key value [] = refl
set_member-names key value ((name, old) ∷ payload) =
    let rest = set_member-names key value payload in
    elim (Bool-cases (name == key)) [
      | inl e ↦ rw e (ap (λ names. name ∷ names) rest)
      | inr e ↦ rw e (ap (λ names. name ∷ names) rest)
    ]

module _ (codec : EventCodec) where
  open codec use {dump}

  -- The text of the event with a payload of the same members, and short enough.
  abbrev pub Shortened : Event → ℕ → String → Type 0
  Shortened event remaining s =
      (payload : Payload) × (s ≡ dump (record event { payload = payload }))
      × (member_names payload ≡ member_names event.payload)
      × (len s ≤ remaining)

  shrink-Shortened :
      (remaining : ℕ) (event : Event) (payload members : Payload) {s : String}
      → member_names payload ≡ member_names event.payload
      → shrink codec remaining event payload members ≡ some s
      → Shortened event remaining s
  unfolding shrink
  shrink-Shortened remaining event payload [] names h = cc h
  shrink-Shortened remaining event payload ((key, json other) ∷ members) {s} names h =
      shrink-Shortened remaining event payload members names h
  shrink-Shortened remaining event payload ((key, text t) ∷ members) {s} names h =
      let shorter = text (truncate_text codec t (max 256 (remaining / 4))).0 in
      let payload' = set_member key shorter payload in
      let names' = set_member-names key shorter payload ∙ names in
      let serialized = dump (record event { payload = payload' }) in
      elim (Bool-cases (leb (len serialized) remaining)) [
        | inl e ↦
            let found : some serialized ≡ some s = rw (shrink, e) at h in
            let same : serialized ≡ s = cc found in
            (payload', sym same, names', subst (λ t. len t ≤ remaining) same (ground (arith, e)))
        | inr e ↦ shrink-Shortened remaining event payload' members names' (rw (shrink, e) at h)
      ]

  -- Where something is left of the log: the event, with texts cut where need be, in what is left, or
  -- the stub of a truncated event, where the whole event does not fit. Where nothing is left: the stub
  -- of an omitted event.
  abbrev pub IsCapped : String × ℕ → Event → ℕ → ℕ → String → Type 0
  IsCapped drawn event cap used s =
      (Shortened event (cap - used) s × (used < cap))
      ⊎ ((s ≡ dump (stub drawn event omitted_payload)) × (cap ≤ used))
      ⊎ ((s ≡ dump (stub drawn event truncated_payload))
          × (used < cap)
          × (cap < len (dump event) + used))

  -- `truncate_event_json` reports `False` only with the whole text of the event, which then fits in
  -- what is left of the log, and it reports so wherever it fits and something is left. Where nothing is
  -- left it returns the stub for an omitted event. Otherwise what it returns is the text of the event,
  -- with other values of the same members of the payload, and fits, or it is the stub for a truncated
  -- event, and this only where the whole text does not fit.
  pub truncate_event_json-IsCapped :
      (drawn : String × ℕ) (event : Event) (cap used : ℕ)
      → ((truncate_event_json codec drawn event cap used).1 ≡ false
          → ((truncate_event_json codec drawn event cap used).0 ≡ dump event)
            × (len (dump event) + used ≤ cap))
        × (used < cap
            → len (dump event) + used ≤ cap
            → truncate_event_json codec drawn event cap used ≡ (dump event, false))
        × IsCapped drawn event cap used (truncate_event_json codec drawn event cap used).0
  unfolding truncate_event_json
  truncate_event_json-IsCapped drawn event cap used =
      let remaining = cap - used in
      elim (Bool-cases (leb remaining 0)) [
        | inl e ↦
            rw (e, truncate_event_json)
              (λ h. cc h, λ h _. ground (arith, e, h), inr (inl (refl, ground (arith, e))))
        | inr e ↦ elim (Bool-cases (leb (len (dump event)) remaining)) [
          | inl f ↦
              let whole : Shortened event remaining (dump event) =
                (event.payload, refl, refl, ground (arith, f)) in
              rw (e, truncate_event_json, f)
                (λ _. (refl, ground (arith, e, f)), λ _ _. refl, inl (whole, ground (arith, e)))
          | inr f ↦
              elim (Option-cases (
                shrink codec remaining event event.payload
                  (order_by (longer_first codec) event.payload))) [
                    | inl g ↦
                        rw (e, truncate_event_json, f, g)
                          (
                            λ h. cc h,
                            λ _ h. ground (arith, f, h),
                            inr (inr (refl, ground (arith, e), ground (arith, e, f))),
                          )
                    | inr (s, g) ↦
                        let shorter =
                          shrink-Shortened remaining event event.payload
                            (order_by (longer_first codec) event.payload) refl g in
                        rw (e, truncate_event_json, f, g)
                          (λ h. cc h, λ _ h. ground (arith, f, h), inl (shorter, ground (arith, e)))
                  ]
        ]
      ]
