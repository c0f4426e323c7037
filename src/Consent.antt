-- ===== src/Consent.antt =====
-- `ConsentRateDO` of packages/mcp-server/src/do/consent-rate.ts: the cap on consent writes of a source
-- address, in a map of bounded size.
-- The map is a list of its entries in the order of insertion: setting a key that it has keeps the
-- place of its entry.
pub mod Size
pub mod Denials
use snow_mcp.Common.{
  ℕ, ◌+◌, ◌*◌, String, Bool, true, false, not, Option, none, some, List, [], ◌∷◌, leb, ltb, length,
  filter_by, str_eq, if◌then◌else◌,
}

abbrev pub window_ms : ℕ
window_ms = 60000

abbrev pub max_per_window : ℕ
max_per_window = 30

abbrev pub max_keys : ℕ
max_keys = 10000

pub record Entry : Type 0 where
  pub key : String
  pub count : ℕ
  pub reset_at : ℕ

-- `windows.get(key)`.
unfoldable pub find_window : String → List Entry → Option Entry
find_window key [] = none
find_window key (e ∷ es) = if str_eq e.key key then some e else find_window key es

-- `windows.set(key, …)`, and the update of `count` in place.
unfoldable pub set_window : Entry → List Entry → List Entry
set_window w [] = w ∷ []
set_window w (e ∷ es) = if str_eq e.key w.key then w ∷ es else e ∷ set_window w es

-- `prune`.
unfoldable pub prune : ℕ → List Entry → List Entry
prune now es = filter_by (λ e. not (leb e.reset_at now)) es

-- The `while` that deletes the oldest key until there is room.
unfoldable pub evict_oldest : List Entry → List Entry
evict_oldest [] = []
evict_oldest (e ∷ es) = if leb max_keys (length (e ∷ es)) then evict_oldest es else e ∷ es

unfoldable pub make_room : ℕ → List Entry → List Entry
unfolding prune evict_oldest
make_room now es = if leb max_keys (length es) then evict_oldest (prune now es) else es

abbrev pub fresh : String → ℕ → Entry
fresh key now = record { key = key; count = 1; reset_at = now + window_ms }

abbrev allow_in : Option Entry → String → ℕ → List Entry → Bool × List Entry
allow_in none key now es = (true, set_window (fresh key now) (make_room now es))
allow_in (some w) key now es =
    if ltb now w.reset_at
    then (if leb max_per_window w.count
        then (false, es)
        else (true, set_window (record w { count = w.count + 1 }) es))
    else (true, set_window (fresh key now) es)

unfoldable pub allow : String → ℕ → List Entry → Bool × List Entry
unfolding find_window set_window make_room
allow key now es = allow_in (find_window key es) key now es

-- `count()`.
abbrev pub tracked_keys : List Entry → ℕ
tracked_keys es = length es
