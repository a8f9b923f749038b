-- ===== src/Server/Limit.antt =====
-- The limit on attempts to sign in, against the history of all attempts.
use runvard.Base.{
  ℕ, ◌+◌, ◌≤◌, String, ◌≡◌, refl, ◌∙◌, ap, Bool, true, List, [], ◌∷◌, ◌++◌, arith, leb, ◌==◌,
  length, keep, length-append, if◌then◌else◌, Bool-cases, inl, inr, ok, reply, after, subst, sym,
  ==→≡,
}
use runvard.Base.Dict
use runvard.Base.Dict.{Dict}
use runvard.Server.Rate.{or_nil, is_recent, bucket, rate_ok}

-- An attempt: the address and the time.
abbrev pub Attempt : Type 0
Attempt = String × ℕ

-- What is stored after the attempts, the newest of which comes first.
abbrev pub after_attempts : List Attempt → Dict (List ℕ)
after_attempts [] = []
after_attempts ((ip, t) ∷ older) = after (rate_ok ip t) (after_attempts older)

-- The times of all attempts of an address, the oldest first.
abbrev pub times : String → List Attempt → List ℕ
times ip [] = []
times ip ((j, t) ∷ older) = let rest = times ip older in if j == ip then rest ++ (t ∷ []) else rest

-- The clock does not go back, up to the time `now`.
abbrev pub IsForward : ℕ → List Attempt → Type 0
IsForward now [] = Unit
IsForward now ((ip, t) ∷ older) = (t ≤ now) × IsForward t older

module _ {A : Type 0} where
  keep-append : (p : A → Bool) (xs ys : List A) → keep p (xs ++ ys) ≡ keep p xs ++ keep p ys
  keep-append p [] ys = refl
  keep-append p (x ∷ xs) ys = elim (Bool-cases (p x)) [
    | inl e ↦ rw (e, keep-append p xs ys) refl
    | inr e ↦ rw (e, keep-append p xs ys) refl
  ]

  keep-keep :
      (p q : A → Bool) (xs : List A)
      → ((x : A) → p x ≡ true → q x ≡ true)
      → keep p (keep q xs) ≡ keep p xs
  keep-keep p q [] h = refl
  keep-keep p q (x ∷ xs) h = ground (arith, keep-keep p q xs h, h x)

IsForward-weaken :
    (now later : ℕ) (h : List Attempt) → now ≤ later → IsForward now h → IsForward later h
IsForward-weaken now later [] le f = tt
IsForward-weaken now later ((ip, t) ∷ older) le (first, rest) = (omega arith, rest)

-- A new attempt drops what counts no more, now or later.
keep-bucket :
    (ip : String) (t now : ℕ) (d : Dict (List ℕ))
    → t ≤ now
    → keep (is_recent now) (bucket ip t d)
      ≡ keep (is_recent now) (or_nil (Dict.get ip d)) ++ keep (is_recent now) (t ∷ [])
unfolding bucket
keep-bucket ip t now d le =
    keep-append (is_recent now) (keep (is_recent t) (or_nil (Dict.get ip d))) (t ∷ [])
    ∙ ap (λ kept. kept ++ keep (is_recent now) (t ∷ []))
        (keep-keep (is_recent now) (is_recent t) (or_nil (Dict.get ip d)) (λ x h. ground arith))

-- Nothing is forgotten that still counts.
keep-after_attempts :
    (ip : String) (now : ℕ) (h : List Attempt)
    → IsForward now h
    → keep (is_recent now) (or_nil (Dict.get ip (after_attempts h)))
      ≡ keep (is_recent now) (times ip h)
unfolding rate_ok Dict.get
keep-after_attempts ip now [] f = refl
keep-after_attempts ip now ((j, t) ∷ older) (le, rest) =
    let d = after_attempts older in
    let before = keep-after_attempts ip now older (IsForward-weaken t now older le rest) in
    elim (Bool-cases (j == ip)) [
      | inl e ↦
          rw (Dict.get-insert ip j (bucket j t d) d, e)
            (subst
              (λ k.
                keep (is_recent now) (bucket k t d)
                ≡ keep (is_recent now) (times ip older ++ (t ∷ [])))
              (sym (==→≡ j ip e))
              (keep-bucket ip t now d le
                ∙ ap (λ kept. kept ++ keep (is_recent now) (t ∷ [])) before
                ∙ sym (keep-append (is_recent now) (times ip older) (t ∷ []))))
      | inr e ↦ rw (Dict.get-insert ip j (bucket j t d) d, e) before
    ]

-- An attempt to sign in is let through exactly if the address made at most four others in the minute
-- before it, of all that were ever made, let through or not. The clock is assumed not to go back.
pub rate_ok-verdict :
    (ip : String) (now : ℕ) (h : List Attempt)
    → IsForward now h
    → reply (rate_ok ip now) (after_attempts h)
      ≡ ok (leb (length (keep (is_recent now) (times ip h)) + 1) 5)
unfolding rate_ok bucket
rate_ok-verdict ip now h f =
    ap (λ n. ok (leb n 5))
      (length-append (keep (is_recent now) (or_nil (Dict.get ip (after_attempts h)))) (now ∷ [])
        ∙ ap (λ kept. length kept + 1) (keep-after_attempts ip now h f))
