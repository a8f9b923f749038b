-- ===== src/Federation/Nonces/Size.antt =====
-- The cache never grows past its limit.
use runvard.Base.{
  ℕ, ◌≤◌, ◌<◌, String, ◌≡◌, ◌≢◌, refl, true, Option, none, some, [], ◌∷◌, is_some, length, arith,
  after,
}
use runvard.Base.Dict
use runvard.Base.Dict.{Dict}
use runvard.Federation.Nonces.{consume, room, is_stale, nonce_key, oldest, drop_oldest}

oldest-ne-none : (k : String) (seen : ℕ) (d : Dict ℕ) → oldest ((k, seen) ∷ d) ≢ none
unfolding oldest
oldest-ne-none k seen d h = go (oldest d) refl
  where
    go : (o : Option (String × ℕ)) → oldest d ≡ o → ⊥
    go none e = ground arith
    go (some (j, best)) e = ground arith

oldest-mem :
    (j : String) (best : ℕ) (d : Dict ℕ) → oldest d ≡ some (j, best) → is_some (Dict.get j d) ≡ true
unfolding oldest Dict.get
oldest-mem j best [] h = cc
oldest-mem j best ((k, seen) ∷ d) h = go (oldest d) refl (λ i b e. oldest-mem i b d e)
  where
    go :
        (o : Option (String × ℕ))
        → oldest d ≡ o
        → ((i : String) (b : ℕ) → oldest d ≡ some (i, b) → is_some (Dict.get i d) ≡ true)
        → is_some (Dict.get j ((k, seen) ∷ d)) ≡ true
    go none e ih = ground arith
    go (some (i, b)) e ih = ground (arith, ih i b)

length-drop_oldest : (d : Dict ℕ) → 0 < length d → length (drop_oldest d) < length d
unfolding drop_oldest
length-drop_oldest [] h = absurd (omega arith)
length-drop_oldest ((k, seen) ∷ d) h = go (oldest ((k, seen) ∷ d)) refl
  where
    go :
        (o : Option (String × ℕ))
        → oldest ((k, seen) ∷ d) ≡ o
        → length (drop_oldest ((k, seen) ∷ d)) < length ((k, seen) ∷ d)
    go none e = absurd (oldest-ne-none k seen d e)
    go (some (j, best)) e =
        rw e (Dict.length-erase-lt j ((k, seen) ∷ d) (oldest-mem j best ((k, seen) ∷ d) e))

-- A request leaves the cache within its limit, whether it is let in or not, if the cache was within
-- it and the limit is not 0.
pub consume-bounded :
    (ttl limit : ℕ) (sender nonce : String) (now : ℕ) (d : Dict ℕ)
    → 0 < limit
    → length d ≤ limit
    → length (after (consume ttl limit sender nonce now) d) ≤ limit
unfolding consume room
consume-bounded ttl limit sender nonce now d pos small =
    let pruned = Dict.prune (is_stale ttl now) d in
    ground (
      arith,
      Dict.length-prune-le (is_stale ttl now) d,
      length-drop_oldest pruned,
      Dict.length-insert-le (nonce_key sender nonce) now pruned,
      Dict.length-insert-le (nonce_key sender nonce) now (drop_oldest pruned),
    )
