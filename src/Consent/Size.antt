-- ===== src/Consent/Size.antt =====
-- The hard bound on the memory of the consent limiter.
use snow_mcp.Common.{
  ℕ, ◌+◌, ◌≤◌, ◌<◌, ◌≡◌, refl, String, some, List, [], ◌∷◌, length, arith, Option-cases, inl, inr,
  str_eq_iff,
}
use snow_mcp.Consent.{
  Entry, find_window, set_window, prune, evict_oldest, make_room, fresh, allow, max_keys,
  tracked_keys,
}

-- A request, with its source and its time.
pub record Request : Type 0 where
  pub key : String
  pub now : ℕ

unfoldable pub allow_all : List Request → List Entry → List Entry
allow_all [] es = es
allow_all (r ∷ rs) es = allow_all rs (allow r.key r.now es).1

length-set_window-le : (w : Entry) (es : List Entry) → length (set_window w es) ≤ length es + 1
unfolding set_window
length-set_window-le w [] = omega arith
length-set_window-le w (e ∷ es) = ground (arith, length-set_window-le w es)

length-set_window-known :
    (key : String) (w x : Entry) (es : List Entry)
    → w.key ≡ key
    → find_window key es ≡ some x
    → length (set_window w es) ≡ length es
unfolding set_window find_window
length-set_window-known key w x [] same h = cc
length-set_window-known key w x (e ∷ es) same h = ground (arith, length-set_window-known key w x es)

pub find_window-key :
    (key : String) (x : Entry) (es : List Entry) → find_window key es ≡ some x → x.key ≡ key
unfolding find_window
find_window-key key x [] h = cc
find_window-key key x (e ∷ es) h = ground (arith, str_eq_iff e.key key, find_window-key key x es)

length-evict_oldest : (es : List Entry) → length (evict_oldest es) < max_keys
unfolding evict_oldest
length-evict_oldest [] = omega arith
length-evict_oldest (e ∷ es) = ground (arith, length-evict_oldest es)

length-make_room : (now : ℕ) (es : List Entry) → length (make_room now es) < max_keys
unfolding make_room
length-make_room now es = ground (arith, length-evict_oldest (prune now es))

allow-size :
    (key : String) (now : ℕ) (es : List Entry)
    → tracked_keys es ≤ max_keys
    → tracked_keys (allow key now es).1 ≤ max_keys
unfolding allow
allow-size key now es h = elim (Option-cases (find_window key es)) [
  | inl e ↦
      let room = length-make_room now es in
      let set = length-set_window-le (fresh key now) (make_room now es) in
      rw e (omega (arith, room, set))
  | inr (w, e) ↦
      let same = find_window-key key w es e in
      let first = length-set_window-known key (record w { count = w.count + 1 }) w es same e in
      let second = length-set_window-known key (fresh key now) w es refl e in
      rw e (ground (arith, first, second, h))
]

-- From a map within the bound, it never has more than 10000 keys, whatever requests come.
pub allow_all-size :
    (rs : List Request) (es : List Entry)
    → tracked_keys es ≤ max_keys
    → tracked_keys (allow_all rs es) ≤ max_keys
unfolding allow_all
allow_all-size [] es h = h
allow_all-size (r ∷ rs) es h =
    allow_all-size rs (allow r.key r.now es).1 (allow-size r.key r.now es h)
