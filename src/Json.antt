-- ===== src/Json.antt =====
-- The decoded JSON messages of agents (backend/app/websocket/agent_ws.py), and what Python does with
-- their values.
use native.Mathlib.Omega.{arith}
use mathlib.Core.Path.{◌≡◌, refl}
use glassops.Prelude.{
  ℕ, String, Bool, false, Option, none, some, List, [], ◌∷◌, suc, zero, if◌then◌else◌, ◌==◌,
  contains, true, string_eq,
}

-- `negsuc n` is -(n + 1).
pub data ℤ : Type 0 where
  pos : ℕ → ℤ
  negsuc : ℕ → ℤ

-- A decoded message. A finite float is a number of millionths, and `infinite` is what a literal
-- such as 1e400 becomes; NaN is refused by the decoder.
mutual
  pub data Json : Type 0 where
    null : Json
    bool : Bool → Json
    int : ℤ → Json
    float : ℤ → Json
    infinite : Json
    str : String → Json
    arr : Items → Json
    obj : Members → Json

  pub data Items : Type 0 where
    no_items : Items
    item : Json → Items → Items

  pub data Members : Type 0 where
    no_members : Members
    member : String → Json → Members → Members

-- `d.get(key)`
unfoldable pub get : String → Members → Json
get key no_members = null
get key (member k v rest) = if k == key then v else get key rest

-- `d.pop(key, None)`
unfoldable pub drop_key : String → Members → Members
drop_key key no_members = no_members
drop_key key (member k v rest) =
    let others = drop_key key rest in if k == key then others else member k v others

-- `xs[:n]`
unfoldable pub first_items : ℕ → Items → List Json
first_items zero items = []
first_items (suc n) no_items = []
first_items (suc n) (item v rest) = v ∷ first_items n rest

-- `v in {…}`, which raises for a list or a dict.
unfoldable pub in_set : List String → Json → Option Bool
in_set names (str s) = some (contains names s)
in_set names (arr _) = none
in_set names (obj _) = none
in_set names null = some false
in_set names (bool _) = some false
in_set names (int _) = some false
in_set names (float _) = some false
in_set names infinite = some false

unfoldable pub text_of : Json → String
text_of (str s) = s
text_of null = ""
text_of (bool _) = ""
text_of (int _) = ""
text_of (float _) = ""
text_of infinite = ""
text_of (arr _) = ""
text_of (obj _) = ""

-- `d[key]`, where `none` is a missing key.
unfoldable pub find : String → Members → Option Json
find key no_members = none
find key (member k v rest) = if k == key then some v else find key rest

-- `d[key] = v`
unfoldable pub set_key : String → Json → Members → Members
set_key key v no_members = member key v no_members
set_key key v (member k w rest) =
    let later = set_key key v rest in if k == key then member k v rest else member k w later

-- `bool(v)`
unfoldable pub truthy : Json → Bool
truthy null = false
truthy (bool b) = b
truthy (int (pos zero)) = false
truthy (int (pos (suc _))) = true
truthy (int (negsuc _)) = true
truthy (float (pos zero)) = false
truthy (float (pos (suc _))) = true
truthy (float (negsuc _)) = true
truthy infinite = true
truthy (str String.[]) = false
truthy (str (String.◌∷◌ _ _)) = true
truthy (arr no_items) = false
truthy (arr (item _ _)) = true
truthy (obj no_members) = false
truthy (obj (member _ _ _)) = true

pub find-drop_key :
    (j key : String) (m : Members) → find j (drop_key key m) ≡ (if key == j then none else find j m)
unfolding find drop_key
find-drop_key j key no_members = ground arith
find-drop_key j key (member k v rest) = ground (arith, find-drop_key j key rest)

pub find-set_key :
    (j key : String) (v : Json) (m : Members)
    → find j (set_key key v m) ≡ (if key == j then some v else find j m)
unfolding find set_key
find-set_key j key v no_members = refl
find-set_key j key v (member k w rest) = ground (arith, find-set_key j key v rest)

pub get-find : (j : String) (m : Members) → get j m ≡ elim (find j m) [ none ↦ null | some v ↦ v ]
unfolding get find
get-find j no_members = refl
get-find j (member k v rest) = ground (arith, get-find j rest)
