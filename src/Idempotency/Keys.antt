-- ===== src/Idempotency/Keys.antt =====
-- Redis keys that hold a text until a time, in milliseconds, as app/framework/idempotency.py uses
-- them: GET, SET PX and DEL.
use rag_agent.Prelude.{
  ℕ, ◌<◌, String, str_eq, ◌≡◌, Option, none, some, List, ltb, lt→ltb, arith, eq_refl, if◌then◌else◌,
}
use rag_agent.Dict
use rag_agent.Dict.{get-put, get-remove}

abbrev pub Keys : Type 0
Keys = List (String × (String × ℕ))

-- the value of a key that has not expired
abbrev pub unexpired : ℕ → Option (String × ℕ) → Option String
unexpired now none = none
unexpired now (some (v, ends)) = if ltb now ends then some v else none

-- GET
unfoldable pub read : ℕ → String → Keys → Option String
read now k s = unexpired now (Dict.get k s)

-- SET with an expiry
unfoldable pub set : ℕ → String → String → Keys → Keys
set ends k v s = Dict.put k (v, ends) s

-- DEL
unfoldable pub delete : String → Keys → Keys
delete k s = Dict.remove k s

pub get-set :
    (k j v : String) (ends : ℕ) (s : Keys)
    → Dict.get j (set ends k v s) ≡ (if str_eq k j then some (v, ends) else Dict.get j s)
unfolding set
get-set k j v ends s = get-put k j (v, ends) s

pub get-delete :
    (k j : String) (s : Keys)
    → Dict.get j (delete k s) ≡ (if str_eq k j then none else Dict.get j s)
unfolding delete
get-delete k j s = get-remove k j s

-- The key holds the text until the time.
abbrev pub Held : String → String → ℕ → Keys → Type 0
Held k v ends s = Dict.get k s ≡ some (v, ends)

pub read-Held :
    (now : ℕ) (k v : String) (ends : ℕ) (s : Keys)
    → Held k v ends s
    → now < ends
    → read now k s ≡ some v
unfolding read
read-Held now k v ends s h p = ground (arith, lt→ltb now ends p)

pub set-Held : (k v : String) (ends : ℕ) (s : Keys) → Held k v ends (set ends k v s)
set-Held k v ends s = ground (arith, get-set k k v ends s, eq_refl k)
