-- ===== src/Fence/Release/Start.antt =====
-- backend/app/wal_fence.py: the end of release, which starts containers where it is asked to, and
-- writes the record.
use glassops.Prelude.{
  String, Bool, not, ◌&&◌, some, List, [], ◌∷◌, if◌then◌else◌, contains, string_eq,
}
use glassops.Fence.{
  Result, ok, err, demand, release_failed, os_error, sealed, Scoped, ReleaseRecord, Files, ◌>>=◌,
  ◌>>◌,
}
use glassops.Fence.Authority.{container_ids}
use glassops.Fence.Release.{Docker, and_then, release_allowed, restore_all}

unfoldable pub write_release :
    {Host : Type 0}
    → String
    → List String
    → Bool
    → Files
    → Host × Result (List String × List String)
    → (Files × Host) × Result ReleaseRecord
write_release lease_id restored written f (h, err e) = ((f, h), err e)
write_release lease_id restored written f (h, ok (started, not_started)) =
    let r : ReleaseRecord = record {
      lease_id = lease_id;
      restored = restored;
      started = started;
      not_started = not_started;
    } in
    if written then ((record f { release = some (sealed r) }, h), ok r) else ((f, h), err os_error)

module _ {Host : Type 0} (d : Docker Host) where
  unfoldable pub start_one : String → Host → Host × Result (Unit {0})
  start_one id h =
      let (h', ran) = d.start id h in
      (h', do ran; after ← d.inspect id h'; demand after.running release_failed)

  -- The ids that were started and those that were not.
  unfoldable pub start_all :
      List String → List Scoped → Host → Host × Result (List String × List String)
  start_all allow [] h = (h, ok ([], []))
  start_all allow (entry ∷ rest) h =
      if not entry.running_before && not (contains allow entry.container_id)
      then and_then (start_all allow rest h)
          (λ ids h'. (h', ok (ids.0, entry.container_id ∷ ids.1)))
      else and_then (start_one entry.container_id h) (λ _ h'.
        and_then (start_all allow rest h')
          (λ ids h''. (h'', ok (entry.container_id ∷ ids.0, ids.1))))

  -- What release does to the host.
  unfoldable pub put_back :
      Bool → List String → List Scoped → Host → Host × Result (List String × List String)
  put_back start_containers allow scope h = and_then (restore_all d scope h) (λ _ h'.
      if start_containers then start_all allow scope h' else (h', ok ([], container_ids scope)))

  -- `seen` are the files as the tests find them, `f` and `h` the files and the host as they are
  -- when the tests are over: no lock keeps other processes from the files in between.
  unfoldable pub release :
      String
      → Bool
      → Bool
      → Bool
      → List String
      → Bool
      → Files
      → Files
      → Host
      → (Files × Host) × Result ReleaseRecord
  release base answered durable start_containers allow written seen f h =
      elim (release_allowed base answered durable seen) [
        | err e ↦ ((f, h), err e)
        | ok (scope, lease_id) ↦
            write_release lease_id (container_ids scope) written f
              (put_back start_containers allow scope h)
      ]
