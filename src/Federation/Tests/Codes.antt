-- ===== src/Federation/Tests/Codes.antt =====
-- The theorems on pairing codes at concrete data.
use runvard.Base.{
  String, ◌≡◌, ◌≢◌, refl, true, false, List, [], ◌∷◌, ok, err, value_error, reply, after, arith,
  string_dec,
}
use runvard.Base.Dict
use runvard.Federation.Pairing.{Code, PairingCodes, consume}
use runvard.Federation.Pairing.Single.{Request, after_requests, consume_once}
use runvard.Federation.Pairing.Rate.{five_failures_lock, IsLimited}

abbrev hash : String → String
hash code = code

abbrev fresh : Code
fresh = record { created_at = 100; expires_at = 700; used = false }

abbrev codes : PairingCodes
codes = record { values = ("right", fresh) ∷ []; failures = ("r2", 90 ∷ 95 ∷ []) ∷ [] }

abbrev tries : String → Request
tries code = record { code = code; remote = "r1"; time = 200 }

abbrev five_wrong : List Request
five_wrong = tries "a" ∷ tries "b" ∷ tries "c" ∷ tries "d" ∷ tries "e" ∷ []

accepted : reply (consume hash "right" "r1" 200) codes ≡ ok true
unfolding consume Dict.get Dict.insert string_dec
accepted = refl

consume_once_example :
    reply
      (consume hash "right" "r2" 210)
      (after_requests hash five_wrong (after (consume hash "right" "r1" 200) codes))
    ≢ ok true
consume_once_example = consume_once hash "right" "r1" "r2" 200 210 five_wrong codes accepted

five_failures_lock_example :
    reply (consume hash "right" "r1" 259) (after_requests hash five_wrong codes)
    ≡ err (value_error "pairing rate limit exceeded")
unfolding consume Dict.get Dict.insert string_dec
five_failures_lock_example =
    five_failures_lock hash "r1" 200 five_wrong "right" 259 codes
      (
        (omega arith, omega arith),
        (
          (omega arith, omega arith),
          (
            (omega arith, omega arith),
            ((omega arith, omega arith), ((omega arith, omega arith), tt)),
          ),
        ),
      )
      (omega arith) (omega arith)

codes-IsLimited : IsLimited codes
unfolding Dict.get
codes-IsLimited = record { at_remote = λ r. ground arith }
