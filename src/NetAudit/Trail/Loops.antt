-- ===== src/NetAudit/Trail/Loops.antt =====
-- The two loops of `collect`, one key at a time.
use glassops.Prelude.{
  ℕ, ◌≡◌, refl, inl, inr, Bool-cases, Bool, true, false, not, ◌&&◌, ◌||◌, Option, none, some, List,
  [], ◌∷◌, ◌++◌, arith, ◌==◌, Bool-cases,
}
use glassops.Prelude.Dict
use glassops.Prelude.Dict.{Dict, lookup, lookup-insert, NodupKeys, insert-NodupKeys}
use glassops.NetAudit.Types.{Conn, Key, Meta, opened, closed, Event, key_eq}
use glassops.NetAudit.Collector.{has, open_event, close_event, open_new, close_gone}

-- Reads the events of `k`, from whether it is open. `none` is a trail that makes no sense: an open
-- of what is open, or a close of what is not.
unfoldable pub trail : Key → Bool → List Event → Option Bool
trail k b [] = some b
trail k b (e ∷ es) = elim (k == e.key) [
  | false ↦ trail k b es
  | true ↦ elim e.event [
    | opened ↦ elim b [ true ↦ none | false ↦ trail k true es ]
    | closed ↦ elim b [ false ↦ none | true ↦ trail k false es ]
  ]
]

abbrev pub bind : Option Bool → (Bool → Option Bool) → Option Bool
bind none f = none
bind (some b) f = f b

pub trail-append :
    (k : Key) (b : Bool) (es fs : List Event)
    → trail k b (es ++ fs) ≡ bind (trail k b es) (λ c. trail k c fs)
unfolding trail
trail-append k b [] fs = refl
trail-append k b (e ∷ es) fs =
    ground (arith, trail-append k b es fs, trail-append k true es fs, trail-append k false es fs)

module _ (k : Key) where
  pub has-insert :
      {V : Type 0} (j : Key) (v : V) (d : Dict Key V)
      → has k (Dict.insert j v d) ≡ (k == j || has k d)
  unfolding has
  has-insert j v d = ground (arith, lookup-insert k j v d)

  pub has-nil : (V : Type 0) → has {V = V} k [] ≡ false
  unfolding has lookup
  has-nil V = refl

  pub has-cons :
      {V : Type 0} (j : Key) (v : V) (d : Dict Key V) → has k ((j, v) ∷ d) ≡ (k == j || has k d)
  unfolding has lookup
  has-cons j v d = ground arith

  pub has_self : {V : Type 0} (j : Key) (d : Dict Key V) → k ≡ j → has k d ≡ has j d
  has_self j d e = rw e

  -- The first loop: what is current becomes known, and what was not known is opened once.
  pub has-open_new :
      (now : ℕ) (current : Dict Key Conn) (prev : Dict Key Meta)
      → has k (open_new now current prev).0 ≡ (has k prev || has k current)
  unfolding open_new
  has-open_new now [] prev = rw has-nil (ground arith)
  has-open_new now ((j, c) ∷ current) prev =
      let seen : Meta = record { ts = now; pid = c.pid; pname = c.pname; status = c.status } in
      rw has-cons (
        ground (
          arith,
          has-open_new now current prev,
          has-open_new now current (Dict.insert j seen prev),
          has-insert j seen prev,
          has_self j prev,
        ))

  pub trail-open_new :
      (now : ℕ) (current : Dict Key Conn) (prev : Dict Key Meta) (b : Bool)
      → (has k prev ≡ false → has k current ≡ true → b ≡ false)
      → trail k b (open_new now current prev).1 ≡ some (not (has k prev) && has k current || b)
  unfolding open_new open_event trail
  trail-open_new now [] prev b h = rw has-nil (ground arith)
  trail-open_new now ((j, c) ∷ current) prev b h =
      let seen : Meta = record { ts = now; pid = c.pid; pname = c.pname; status = c.status } in
      rw has-cons (
        ground (
          arith,
          trail-open_new now current prev b,
          trail-open_new now current (Dict.insert j seen prev) b,
          trail-open_new now current (Dict.insert j seen prev) true,
          has-insert j seen prev,
          has_self j prev,
          has-cons j c current,
        ))

  absent_of_lookup : {V : Type 0} (d : Dict Key V) → lookup k d ≡ none → has k d ≡ false
  unfolding has
  absent_of_lookup d e = ground arith

  lookup_of_absent : {V : Type 0} (d : Dict Key V) → has k d ≡ false → lookup k d ≡ none
  unfolding has
  lookup_of_absent d e = ground arith

  missing : {V : Type 0} (j : Key) (d : Dict Key V) → lookup j d ≡ none → k ≡ j → has k d ≡ false
  missing j d e same = absent_of_lookup d (rw same e)

  -- The second loop: what is not current is closed once, and nothing else is.
  pub has-close_gone :
      (now : ℕ) (current : Dict Key Conn) (prev : Dict Key Meta)
      → has k (close_gone now current prev).0 ≡ (has k prev && has k current)
  unfolding close_gone
  has-close_gone now current [] = rw has-nil (ground arith)
  has-close_gone now current ((j, m) ∷ prev) = elim (Bool-cases (has j current)) [
    | inl kept ↦
        simp (kept, has-cons) (ground (arith, has-close_gone now current prev, has_self j current))
    | inr gone ↦
        rw (gone, has-cons) (ground (arith, has-close_gone now current prev, has_self j current))
  ]

  pub trail-close_gone :
      (now : ℕ) (current : Dict Key Conn) (prev : Dict Key Meta) (b : Bool)
      → NodupKeys prev
      → (has k prev ≡ true → has k current ≡ false → b ≡ true)
      → trail k b (close_gone now current prev).1
        ≡ some (b && not (has k prev && not (has k current)))
  unfolding close_gone close_event trail
  trail-close_gone now current [] b u h = rw has-nil (ground arith)
  trail-close_gone now current ((j, m) ∷ prev) b (fresh, u) h = rw has-cons (
      ground (
        arith,
        trail-close_gone now current prev b u,
        trail-close_gone now current prev false u,
        has-cons j m prev,
        has_self j current,
        missing j prev fresh,
      ))

pub open_new-NodupKeys :
    (now : ℕ) (current : Dict Key Conn) (prev : Dict Key Meta)
    → NodupKeys prev
    → NodupKeys (open_new now current prev).0
unfolding open_new
open_new-NodupKeys now [] prev u = u
open_new-NodupKeys now ((k, c) ∷ current) prev u = elim (Bool-cases (has k prev)) [
  | inl known ↦ rw known (open_new-NodupKeys now current prev u)
  | inr new_key ↦ rw new_key (open_new-NodupKeys now current _ (insert-NodupKeys k _ prev u))
]

pub close_gone-NodupKeys :
    (now : ℕ) (current : Dict Key Conn) (prev : Dict Key Meta)
    → NodupKeys prev
    → NodupKeys (close_gone now current prev).0
unfolding close_gone
close_gone-NodupKeys now current [] u = tt
close_gone-NodupKeys now current ((j, m) ∷ prev) (fresh, u) = ground (
  arith,
  close_gone-NodupKeys now current prev u,
  has-close_gone j now current prev,
  absent_of_lookup j prev fresh,
  lookup_of_absent j (close_gone now current prev).0,
)
