-- ===== src/Fence/Steps.antt =====
-- The operations on the files of one manifest in any order, by any processes.
use glassops.Prelude.{ℕ, String, Bool, true, false, Option, List, [], ◌∷◌, ◌++◌, if◌then◌else◌}
use glassops.Fence.{is_ok, Manifest, Files}
use glassops.Fence.Authority.{Outside}
use glassops.Fence.Claims.{Survey, claim, begin_apply, check_before_source_open}
use glassops.Fence.Finish.{complete, fail}
use glassops.Fence.Release.{Docker}
use glassops.Fence.Release.Start.{release}

-- An operation with what it meets. A release is an event when it ends, with the host as it is then
-- and the files as its tests found them, at any time before.
pub data Event (Host : Type 0) : Type 0 where
  claims : Survey → String → Bool → Event Host
  begins : String → ℕ → String → Bool → Event Host
  checks : String → Survey → String → Event Host
  completes : String → ℕ → Bool → Bool → Event Host
  fails : String → String → ℕ → Bool → Bool → Event Host
  releases : Bool → Bool → Bool → List String → Bool → Files → Host → Event Host

module _ {Host : Type 0} (o : Outside) (verifier : Option String) (d : Docker Host)
    (m : Manifest) where
  abbrev pub step : Event Host → Files → Files
  step (claims w fresh written) f = (claim o verifier m w fresh written f).0
  step (begins id now fresh rewritten) f = (begin_apply o verifier m id now fresh rewritten f).0
  step (checks id w path) f = f
  step (completes id now written rewritten) f = (complete m id now written rewritten f).0
  step (fails id reason now written rewritten) f = (fail m id reason now written rewritten f).0
  step (releases answered durable start allow written seen h) f =
      (release d m.path answered durable start allow written seen f h).0.0

  abbrev pub run : List (Event Host) → Files → Files
  run [] f = f
  run (e ∷ es) f = run es (step e f)

  -- Whether the event gives a permission: a claim, the start of an apply, or a grant for the source.
  abbrev pub authorises : Event Host → Files → Bool
  authorises (claims w fresh written) f = is_ok (claim o verifier m w fresh written f).1
  authorises (begins id now fresh rewritten) f =
      is_ok (begin_apply o verifier m id now fresh rewritten f).1
  authorises (checks id w path) f = is_ok (check_before_source_open o verifier m id w path f)
  authorises (completes id now written rewritten) f = false
  authorises (fails id reason now written rewritten) f = false
  authorises (releases answered durable start allow written seen h) f = false

  abbrev pub any_authorised : List (Event Host) → Files → Bool
  any_authorised [] f = false
  any_authorised (e ∷ es) f = if authorises e f then true else any_authorised es (step e f)

  -- The claims for which `begin_apply` returned.
  abbrev pub begun_by : Event Host → Files → List String
  begun_by (claims w fresh written) f = []
  begun_by (begins id now fresh rewritten) f =
      if is_ok (begin_apply o verifier m id now fresh rewritten f).1 then id ∷ [] else []
  begun_by (checks id w path) f = []
  begun_by (completes id now written rewritten) f = []
  begun_by (fails id reason now written rewritten) f = []
  begun_by (releases answered durable start allow written seen h) f = []

  abbrev pub begun : List (Event Host) → Files → List String
  begun [] f = []
  begun (e ∷ es) f = begun_by e f ++ begun es (step e f)
