-- ===== src/Fence/Attempts.antt =====
-- What one attempt to quiesce the host records and changes.
use glassops.Prelude.{
  ◌≡◌, ◌+◌, ◌&&◌, leb, String, Bool, not, ◌⊎◌, inl, inr, Option, none, some, List, [], ◌∷◌, map,
  ◌==◌, arith, Bool-cases, Option-cases, All, string_eq,
}
use glassops.Prelude.Dict
use glassops.Prelude.Sorting.{order_by}
use glassops.Fence.{
  ok, Result-cases, first-of_ok, Policy, Scoped, torn, sealed, PreparedRecord, Files, exists_file,
}
use glassops.Fence.Authority.{Outside}
use glassops.Fence.Inventory.{ContainerFacts, Inventory}
use glassops.Fence.Release.{Docker}
use glassops.Fence.Quiesce.{
  Declared, Preflight, Attempt, before_id, facts_of, scoped_of, prepared_body, prepare_record,
  inspect_each, host_inventory, preflight, fence_scope, fence_locked, fence,
}
use glassops.Fence.Policies.{IsDocker}

module _ {Host : Type 0} (o : Outside) (d : Docker Host) where
  -- Attempts one after another; one of a process that died is one whose commands fail.
  abbrev pub attempt_all : List Attempt → Files → Host → Files × Host
  attempt_all [] f h = (f, h)
  attempt_all (a ∷ rest) f h = attempt_all rest (fence o d a f h).0.0 (fence o d a f h).0.1

pub prepare_record-cases :
    (pre : Preflight) (written : Bool) (f : Files)
    → ((prepare_record pre written f).0.prepared ≡ f.prepared)
      ⊎ ((f.prepared ≡ none)
          × ((prepare_record pre written f).0.prepared ≡ some (sealed (prepared_body pre))))
unfolding prepare_record
prepare_record-cases pre written f = elim (Option-cases f.prepared) [
  | inl missing ↦ elim (Bool-cases written) [
    | inl done ↦ inr (missing, ground (arith, missing, done))
    | inr failed ↦ inl (ground (arith, missing, failed))
  ]
  | inr (torn, found) ↦ inl (ground (arith, found))
  | inr (sealed p, found) ↦ inl (ground (arith, found))
]

-- The record that the attempt goes on with is the one on disk.
pub prepare_record-named :
    (pre : Preflight) (written : Bool) (f : Files) (p : PreparedRecord)
    → (prepare_record pre written f).1 ≡ ok p
    → (prepare_record pre written f).0.prepared ≡ some (sealed p)
unfolding prepare_record
prepare_record-named pre written f p read = elim (Option-cases f.prepared) [
  | inl missing ↦ ground (arith, missing)
  | inr (torn, found) ↦ absurd (ground (arith, found))
  | inr (sealed q, found) ↦ ground (arith, found)
]

-- An attempt changes nothing, or goes on from its preflight and the record.
pub fence-cases :
    {Host : Type 0} (o : Outside) (d : Docker Host) (a : Attempt) (f : Files) (h : Host)
    → ((fence o d a f h).0 ≡ (f, h))
      ⊎ ((pre : Preflight) × (preflight o d a h ≡ ok pre)
          × ((fence o d a f h).0
              ≡ (fence_scope o d a pre (prepare_record pre a.prepared_written f) h).0))
unfolding fence fence_locked
fence-cases o d a f h = elim (Bool-cases a.locked) [
  | inl locked ↦ inl (ground (arith, locked))
  | inr free ↦ elim (Result-cases (preflight o d a h)) [
    | inl (e, refused) ↦ inl (ground (arith, free, refused))
    | inr (pre, looked) ↦
        elim (Bool-cases
          (leb (a.granted_at + a.ttl) pre.ack.expires_at && not (exists_file f.manifest))) [
            | inl goes ↦ inr (pre, looked, ground (arith, free, looked, goes))
            | inr ends ↦ inl (ground (arith, free, looked, ends))
          ]
  ]
]

module _ {Host : Type 0} (d : Docker Host) (policy_of : String → Host → Option Policy)
    (l : IsDocker d policy_of) where
  abbrev Seen : Host → ContainerFacts → Type 0
  Seen h facts = policy_of facts.container_id h ≡ some facts.policy

  inspect_each-Seen :
      (ids : List String) (h : Host) {inventory : Inventory} (id : String) (facts : ContainerFacts)
      → inspect_each d ids h ≡ ok inventory
      → Dict.lookup id inventory ≡ some facts
      → Seen h facts
  unfolding inspect_each Dict.lookup
  inspect_each-Seen [] h id facts all_seen found = absurd (ground arith)
  inspect_each-Seen (x ∷ rest) h {inventory} id facts all_seen found =
      let (first, seen, more) = first-of_ok (d.inspect x h) _ all_seen in
      let (later, others, whole) = first-of_ok (inspect_each d rest h) _ more in
      elim (Bool-cases (id == x)) [
        | inl here ↦
            let (named, shown) = l.shown x h first seen in
            let same : first ≡ facts = ground arith in ground (arith, same, named, shown)
        | inr elsewhere ↦
            inspect_each-Seen rest h {inventory = later} id facts others (ground arith)
      ]

  facts_of-Seen :
      (h : Host) (inventory : Inventory) (scope : List Declared) {facts : List ContainerFacts}
      → ((id : String) (f : ContainerFacts) → Dict.lookup id inventory ≡ some f → Seen h f)
      → facts_of inventory scope ≡ ok facts
      → All
          (λ (s : Scoped). policy_of s.container_id h ≡ some s.policy_before)
          (map scoped_of facts)
  unfolding facts_of scoped_of
  facts_of-Seen h inventory [] {facts} seen read =
      let empty : facts ≡ [] = ground arith in rw empty tt
  facts_of-Seen h inventory (entry ∷ rest) {facts} seen read =
      elim (Option-cases (Dict.lookup entry.container_id inventory)) [
        | inl missing ↦ absurd (ground (arith, missing))
        | inr (first, found) ↦ elim (Result-cases (facts_of inventory rest)) [
          | inl (e, failed) ↦ absurd (ground (arith, found, failed))
          | inr (later, others) ↦
              let whole : facts ≡ first ∷ later = ground (arith, found, others) in
              rw whole
                (seen entry.container_id first found, facts_of-Seen h inventory rest seen others)
        ]
      ]

  -- What a record of the host says of the policies that it had at first.
  abbrev pub Captured : Host → List Scoped → Type 0
  Captured h scope = All (λ s. policy_of s.container_id h ≡ some s.policy_before) scope

  pub preflight-Captured :
      (o : Outside) (a : Attempt) (h : Host) {pre : Preflight}
      → preflight o d a h ≡ ok pre
      → Captured h (prepared_body pre).scope
  unfolding preflight host_inventory prepared_body
  preflight-Captured o a h {pre} looked =
      let ordered = order_by before_id a.declared in
      elim (Result-cases (d.list h)) [
        | inl (e, failed) ↦ absurd (ground (arith, failed))
        | inr (ids, listed) ↦ elim (Result-cases (inspect_each d ids h)) [
          | inl (e, failed) ↦ absurd (ground (arith, listed, failed))
          | inr (inventory, all_seen) ↦ elim (Result-cases (facts_of inventory ordered)) [
            | inl (e, failed) ↦ absurd (ground (arith, listed, all_seen, failed))
            | inr (facts, read) ↦
                let same : pre.scope_facts ≡ facts = ground (arith, listed, all_seen, read) in
                rw same (
                  facts_of-Seen h inventory ordered
                    (λ id f found. inspect_each-Seen ids h id f all_seen found) read)
          ]
        ]
      ]
