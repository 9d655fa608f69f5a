-- ===== src/Fence/Tests/Memory.antt =====
-- A docker in memory, which keeps its word.
use glassops.Prelude.{
  Option-cases, inl, inr, ◌≡◌, refl, String, true, false, Option, none, some, if◌then◌else◌, ◌==◌,
  arith, string_eq, nat_eq,
}
use glassops.Prelude.Dict
use glassops.Prelude.Dict.{Dict, keys}
use mathlib.Core.Option
use glassops.Fence.{Result, ok, err, docker_command_failed, Policy}
use glassops.Fence.Authority.{Outside}
use glassops.Fence.Inventory.{ContainerFacts}
use glassops.Fence.Claims.{bool_eq}
use glassops.Fence.Release.{PolicyText, named, on_failure_at_most, Docker}
use glassops.Fence.Policies.{IsDocker}

-- Only /data is on the storage of the data mount.
abbrev pub world : Outside
world = record {
  scope_digest = λ host ids identity. "scope";
  lease_binding = λ a lease ids. "bound";
  mac = λ key a. "signed";
  mount_identity = λ source.
      some (record { realpath = source; device = 1; inode = if source == "/data" then 7 else 9 });
  realpath = λ source. source;
}

abbrev pub Host : Type 0
Host = Dict String ContainerFacts

abbrev policy_of_text : PolicyText → Policy
policy_of_text (named name) = record { name = name; retries = 0 }
policy_of_text (on_failure_at_most n) = record { name = "on-failure"; retries = n }

abbrev change_at : String → (ContainerFacts → ContainerFacts) → Host → Host × Result (Unit {0})
change_at id f h = elim (Dict.lookup id h) [
  | none ↦ (h, err docker_command_failed)
  | some facts ↦ (Dict.insert id (f facts) h, ok tt)
]

abbrev pub docker : Docker Host
docker = record {
  inspect = λ id h. elim (Dict.lookup id h) [
    | none ↦ err docker_command_failed
    | some facts ↦ ok (record facts { container_id = id })
  ];
  update = λ text id h. change_at id (λ facts. record facts { policy = policy_of_text text }) h;
  list = λ h. ok (keys h);
  stop = λ id h.
      let (h', ran) =
        change_at id (λ facts. record facts { running = false; status = "exited" }) h in
      (h', elim ran [ ok _ ↦ ok false | err e ↦ err e ]);
  start = λ id h. change_at id (λ facts. record facts { running = true; status = "running" }) h;
}

abbrev pub policy_at : String → Host → Option Policy
policy_at id h = Option.map (λ (facts : ContainerFacts). facts.policy) (Dict.lookup id h)

lookup-change_at :
    (id j : String) (f : ContainerFacts → ContainerFacts) (h : Host)
    → Dict.lookup j (change_at id f h).0
      ≡ (if j == id then Option.map f (Dict.lookup id h) else Dict.lookup j h)
lookup-change_at id j f h = elim (Option-cases (Dict.lookup id h)) [
  | inl missing ↦ ground (arith, missing)
  | inr (facts, found) ↦ ground (arith, found, Dict.lookup-insert j id (f facts) h)
]

-- A change that leaves the policy alone.
change_at-policy :
    (id j : String) (f : ContainerFacts → ContainerFacts) (h : Host)
    → ((facts : ContainerFacts) → (f facts).policy ≡ facts.policy)
    → policy_at j (change_at id f h).0 ≡ policy_at j h
change_at-policy id j f h same = elim (Option-cases (Dict.lookup id h)) [
  | inl missing ↦ ground (arith, missing, lookup-change_at id j f h)
  | inr (facts, found) ↦ ground (arith, found, lookup-change_at id j f h, same facts)
]

pub docker-IsDocker : IsDocker docker policy_at
docker-IsDocker = record {
  shown = λ id h facts seen. elim (Option-cases (Dict.lookup id h)) [
    | inl missing ↦ absurd (ground (arith, missing))
    | inr (there, found) ↦ (ground (arith, found), ground (arith, found))
  ];
  updated = λ text id j h other. ground (
    arith,
    lookup-change_at id j
        (λ (facts : ContainerFacts). record facts { policy = policy_of_text text }) h,
  );
  stopped = λ id j h.
      change_at-policy id j (λ facts. record facts { running = false; status = "exited" }) h
        (λ facts. refl);
  started = λ id j h.
      change_at-policy id j (λ facts. record facts { running = true; status = "running" }) h
        (λ facts. refl);
}
