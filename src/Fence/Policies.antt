-- ===== src/Fence/Policies.antt =====
-- What the steps of fence and release do to the restart policies of a host.
use glassops.Prelude.{
  ◌≡◌, ◌≢◌, refl, String, Bool, false, Option, some, List, [], ◌∷◌, if◌then◌else◌, contains, ◌==◌,
  arith, inl, inr, All, string_eq, nat_eq,
}
use mathlib.Core.Option
use glassops.Fence.{ok, Result-cases, Policy, Scoped}
use glassops.Fence.Authority.{container_ids}
use glassops.Fence.Inventory.{ContainerFacts}
use glassops.Fence.Release.{
  Docker, PolicyText, named, wanted_policy, format_policy, restore_one, restore_all,
}
use glassops.Fence.Release.Start.{start_one, start_all, put_back}
use glassops.Fence.Quiesce.{pin_one, pin_all, stop_one, stop_all}

-- What docker's documentation says of the commands that the fence uses: `inspect` shows the policy
-- of the container that it is asked for, and each other command leaves the policies of all
-- containers alone, but `update` that of the one that it names.
pub record IsDocker {Host : Type 0} (d : Docker Host) (policy_of : String → Host → Option Policy)
    : Type 0 where
  pub shown :
      (id : String) (h : Host) (facts : ContainerFacts)
      → d.inspect id h ≡ ok facts
      → (facts.container_id ≡ id) × (policy_of id h ≡ some facts.policy)
  pub updated :
      (t : PolicyText) (id j : String) (h : Host)
      → j ≢ id
      → policy_of j (d.update t id h).0 ≡ policy_of j h
  pub stopped : (id j : String) (h : Host) → policy_of j (d.stop id h).0 ≡ policy_of j h
  pub started : (id j : String) (h : Host) → policy_of j (d.start id h).0 ≡ policy_of j h

module _ {Host : Type 0} (d : Docker Host) (policy_of : String → Host → Option Policy)
    (l : IsDocker d policy_of) where
  pub pin_all-other :
      (scope : List Scoped) (h : Host) (j : String)
      → contains (container_ids scope) j ≡ false
      → policy_of j (pin_all d scope h).0 ≡ policy_of j h
  unfolding pin_all pin_one
  pin_all-other [] h j outside = refl
  pin_all-other (entry ∷ rest) h j outside = ground (
    arith,
    l.updated (named "no") entry.container_id j h,
    pin_all-other rest (d.update (named "no") entry.container_id h).0 j,
  )

  pub stop_all-policy :
      (scope : List Scoped) (h : Host) (j : String)
      → policy_of j (stop_all d scope h).0 ≡ policy_of j h
  unfolding stop_all stop_one
  stop_all-policy [] h j = refl
  stop_all-policy (entry ∷ rest) h j = ground (
    arith,
    l.stopped entry.container_id j h,
    stop_all-policy rest (d.stop entry.container_id h).0 j,
  )

  pub start_all-policy :
      (allow : List String) (scope : List Scoped) (h : Host) (j : String)
      → policy_of j (start_all d allow scope h).0 ≡ policy_of j h
  unfolding start_all start_one
  start_all-policy allow [] h j = refl
  start_all-policy allow (entry ∷ rest) h j = ground (
    arith,
    l.started entry.container_id j h,
    start_all-policy allow rest h j,
    start_all-policy allow rest (d.start entry.container_id h).0 j,
  )

  restore_one-policy :
      (entry : Scoped) (h : Host) (j : String)
      → (restore_one d entry h).1 ≡ ok tt
      → policy_of j (restore_one d entry h).0 ≡ (
          if entry.container_id == j
          then some (wanted_policy entry.policy_before)
          else policy_of j h)
  unfolding restore_one
  restore_one-policy entry h j restored =
      let id = entry.container_id in
      let t = format_policy (wanted_policy entry.policy_before) in
      let h' = (d.update t id h).0 in
      elim (Result-cases (d.inspect id h)) [
        | inl (e, unseen) ↦ absurd (ground (arith, unseen))
        | inr (facts, seen) ↦ elim (Result-cases (d.update t id h).1) [
          | inl (e, failed) ↦ absurd (ground (arith, seen, failed))
          | inr (_, ran) ↦ elim (Result-cases (d.inspect id h')) [
            | inl (e, unseen) ↦ absurd (ground (arith, seen, ran, unseen))
            | inr (after, read) ↦
                ground (arith, seen, ran, read, l.updated t id j h, (l.shown id h' after read).1)
          ]
        ]
      ]

  -- Every container of the scope has the policy of its record, if each entry of a container has the
  -- same one; no other container has another than before.
  pub restore_all-policy :
      (before : String → Option Policy) (scope : List Scoped) (h : Host) (j : String)
      → All (λ s. before s.container_id ≡ some s.policy_before) scope
      → (restore_all d scope h).1 ≡ ok tt
      → policy_of j (restore_all d scope h).0 ≡ (
          if contains (container_ids scope) j
          then Option.map wanted_policy (before j)
          else policy_of j h)
  unfolding restore_all
  restore_all-policy before [] h j captured restored = refl
  restore_all-policy before (entry ∷ rest) h j captured restored =
      let h' = (restore_one d entry h).0 in
      elim (Result-cases (restore_one d entry h).1) [
        | inl (e, failed) ↦ absurd (ground (arith, failed))
        | inr (_, ran) ↦ ground (
          arith,
          ran,
          captured.0,
          restore_one-policy entry h j,
          restore_all-policy before rest h' j captured.1,
        )
      ]

  -- Starting the containers leaves the policies as they were restored.
  pub put_back-policy :
      (start : Bool) (allow : List String) (before : String → Option Policy) (scope : List Scoped)
      (h : Host) (j : String)
      → All (λ s. before s.container_id ≡ some s.policy_before) scope
      → {ids : List String × List String} → (put_back d start allow scope h).1 ≡ ok ids
      → policy_of j (put_back d start allow scope h).0 ≡ (
          if contains (container_ids scope) j
          then Option.map wanted_policy (before j)
          else policy_of j h)
  unfolding put_back
  put_back-policy start allow before scope h j captured {ids} done =
      elim (Result-cases (restore_all d scope h).1) [
        | inl (e, failed) ↦ absurd (ground (arith, failed))
        | inr (_, ran) ↦ ground (
          arith,
          ran,
          restore_all-policy before scope h j captured,
          start_all-policy allow scope (restore_all d scope h).0 j,
        )
      ]
