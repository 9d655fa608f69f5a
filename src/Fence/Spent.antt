-- ===== src/Fence/Spent.antt =====
-- What a release has to find before it changes anything.
use glassops.Prelude.{
  ◌≡◌, ◌⊎◌, String, Bool, true, ◌||◌, none, some, List, ◌==◌, arith, inl, inr, Bool-cases,
  Option-cases, string_eq,
}
use glassops.Prelude.Text.{is_empty}
use glassops.Fence.{
  ok, Result-cases, ApplyRecord, torn, sealed, Scoped, Manifest, Files, exists_file,
  read_apply_record,
}
use glassops.Fence.Release.{
  Docker, read_release_record, is_terminal, require_durable_terminal, require_spent, lease_of,
  release_allowed,
}
use glassops.Fence.Release.Start.{release}

-- The claim is closed by a terminal record about it, under the lease of the manifest, and the record
-- was synchronised.
pub record IsSpent (base : String) (durable : Bool) (f : Files) : Type 0 where
  pub manifest : Manifest
  pub live : ApplyRecord
  pub terminal : ApplyRecord
  pub has_manifest : f.manifest ≡ some (sealed manifest)
  pub has_live : f.claim ≡ some (sealed live)
  pub has_terminal : f.done ≡ some (sealed terminal)
  pub ended : is_terminal terminal ≡ true
  pub same_claim : terminal.claim_id ≡ live.claim_id
  pub same_lease : (is_empty manifest.lease_id || live.lease_id == manifest.lease_id) ≡ true
  pub own_lease : terminal.lease_id ≡ live.lease_id
  pub synchronised : durable ≡ true
  pub same_path : (live.manifest_path ≡ base) × (terminal.manifest_path ≡ base)

-- The manifest's lease, where a file of a claim is there.
lease_of-manifest :
    (f : Files) {lease_id : String}
    → lease_of f ≡ ok lease_id
    → (exists_file f.done || exists_file f.claim) ≡ true
    → (m : Manifest) × (f.manifest ≡ some (sealed m)) × (m.lease_id ≡ lease_id)
unfolding lease_of
lease_of-manifest f read there = elim (Option-cases f.manifest) [
  | inl missing ↦ absurd (ground (arith, missing))
  | inr (torn, found) ↦ absurd (ground (arith, found))
  | inr (sealed m, found) ↦ (m, found, ground (arith, found))
]

require_spent-IsSpent :
    (base lease_id : String) (durable : Bool) (f : Files) (m : Manifest)
    → require_spent base lease_id durable f ≡ ok tt
    → f.manifest ≡ some (sealed m)
    → m.lease_id ≡ lease_id
    → IsSpent base durable f
unfolding require_spent require_durable_terminal read_release_record read_apply_record
require_spent-IsSpent base lease_id durable f m spent found same = elim (Option-cases f.claim) [
  | inl missing ↦ absurd (ground (arith, missing))
  | inr (torn, there) ↦ absurd (ground (arith, there))
  | inr (sealed live, there) ↦ elim (Option-cases f.done) [
    | inl missing ↦ absurd (ground (arith, missing))
    | inr (torn, over) ↦ absurd (ground (arith, over))
    | inr (sealed r, over) ↦ record {
      manifest = m;
      live = live;
      terminal = r;
      has_manifest = found;
      has_live = there;
      has_terminal = over;
      ended = ground (arith, there, over);
      same_claim = ground (arith, there, over);
      same_lease = ground (arith, there, over);
      own_lease = ground (arith, there, over);
      synchronised = ground (arith, there, over);
      same_path = (ground (arith, there, over), ground (arith, there, over));
    }
  ]
]

-- What an allowed release has asked of a fence with a claim.
release_allowed-spent :
    (base : String) (answered durable : Bool) (f : Files) {out : List Scoped × String}
    → release_allowed base answered durable f ≡ ok out
    → (exists_file f.done || exists_file f.claim) ≡ true
    → (lease_id : String) × (lease_of f ≡ ok lease_id)
      × (require_spent base lease_id durable f ≡ ok tt)
unfolding release_allowed
release_allowed-spent base answered durable f allowed there = elim (Result-cases (lease_of f)) [
  | inl (e, unread) ↦ absurd (elim (Option-cases f.prepared) [
    | inl missing ↦ ground (arith, missing)
    | inr (torn, found) ↦ ground (arith, found)
    | inr (sealed scope, found) ↦ ground (arith, found, unread)
  ])
  | inr (lease_id, read) ↦ (
    lease_id,
    read,
    elim (Option-cases f.prepared) [
      | inl missing ↦ absurd (ground (arith, missing))
      | inr (torn, found) ↦ absurd (ground (arith, found))
      | inr (sealed scope, found) ↦ elim (Result-cases (require_spent base lease_id durable f)) [
        | inl (e, live) ↦ absurd (ground (arith, found, read, live))
        | inr (t, spent) ↦ spent
      ]
    ],
  )
]

release_allowed-IsSpent :
    (base : String) (answered durable : Bool) (f : Files) {out : List Scoped × String}
    → release_allowed base answered durable f ≡ ok out
    → ((f.claim ≡ none) × (f.done ≡ none)) ⊎ IsSpent base durable f
release_allowed-IsSpent base answered durable f {out} allowed =
    elim (Bool-cases (exists_file f.done || exists_file f.claim)) [
      | inl there ↦
          let (lease_id, read, spent) =
            release_allowed-spent base answered durable f allowed there in
          let (m, found, same) = lease_of-manifest f read there in
          inr (require_spent-IsSpent base lease_id durable f m spent found same)
      | inr neither ↦ inl (ground (arith, neither), ground (arith, neither))
    ]

module _ {Host : Type 0} (d : Docker Host) where
  -- Whatever comes of a release, unless it leaves the files and the host as they are, the files that
  -- its tests found have no claim and no terminal record, or the claim is closed there by a terminal
  -- record about it, with its lease and path, that was synchronised.
  pub release-IsSpent :
      (base : String) (answered durable start : Bool) (allow : List String) (written : Bool)
      (seen f : Files) (h : Host)
      → ((release d base answered durable start allow written seen f h).0 ≡ (f, h))
        ⊎ ((seen.claim ≡ none) × (seen.done ≡ none))
        ⊎ IsSpent base durable seen
  unfolding release
  release-IsSpent base answered durable start allow written seen f h =
      elim (Result-cases (release_allowed base answered durable seen)) [
        | inl (e, refused) ↦ inl (ground (arith, refused))
        | inr (out, allowed) ↦ inr (release_allowed-IsSpent base answered durable seen allowed)
      ]
