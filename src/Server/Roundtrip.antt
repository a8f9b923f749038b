-- ===== src/Server/Roundtrip.antt =====
-- A session cookie says what it was made of, until it expires, and it cannot say anything else.
use runvard.Base.{
  ℕ, ◌+◌, ◌<>◌, String, ◌≡◌, refl, Bool, true, false, none, some, [], ◌∷◌, arith, ltb,
  if◌then◌else◌, string_dec, has_char, split, split-append, split-whole, split_once-append,
}
use runvard.Server.Session.{
  Coding, flag_text, payload_of, make_token, signed_payload, read_payload, parse_token,
}

-- What the libraries promise of the texts that one token is made of: what was encoded is decoded,
-- base64 has no dot, and the digits of a number are read as that number.
pub record IsReadable (C : Coding) (plain : String) (expires : ℕ) : Type 0 where
  pub decoded : C.decode (C.encode plain) ≡ some plain
  pub body : C.b64d (C.b64e (C.encode plain)) ≡ some (C.encode plain)
  pub signature : C.b64d (C.b64e (C.mac (C.encode plain))) ≡ some (C.mac (C.encode plain))
  pub dotless : has_char "." (C.b64e (C.encode plain)) ≡ false
  pub number : C.int (C.decimal expires) ≡ some expires
  pub barless : has_char "|" (C.decimal expires) ≡ false

flag_text-barless : (expert : Bool) → has_char "|" (flag_text expert) ≡ false
unfolding has_char
flag_text-barless true = refl
flag_text-barless false = refl

module _ (C : Coding) where
  split-payload_of :
      (username role : String) (expert : Bool) (expires : ℕ)
      → has_char "|" username ≡ false
      → has_char "|" role ≡ false
      → has_char "|" (C.decimal expires) ≡ false
      → split "|" (payload_of C username role expert expires)
        ≡ username ∷ role ∷ flag_text expert ∷ C.decimal expires ∷ []
  unfolding payload_of has_char
  split-payload_of username role expert expires user_ok role_ok time_ok =
      rw
        (
          split-append "|" username
              (role <> ("|" <> (flag_text expert <> ("|" <> C.decimal expires)))) user_ok,
          split-append "|" role (flag_text expert <> ("|" <> C.decimal expires)) role_ok,
          split-append "|" (flag_text expert) (C.decimal expires) (flag_text-barless expert),
          split-whole "|" (C.decimal expires) time_ok,
        )
        refl

  signed_payload-make_token :
      (username role : String) (ttl now : ℕ) (expert : Bool)
      → IsReadable C (payload_of C username role expert (now + ttl)) (now + ttl)
      → signed_payload C (make_token C username ttl role expert now)
        ≡ some (C.encode (payload_of C username role expert (now + ttl)))
  unfolding signed_payload make_token
  signed_payload-make_token username role ttl now expert h =
      let payload = C.encode (payload_of C username role expert (now + ttl)) in
      ground (
        arith,
        h.body,
        h.signature,
        split_once-append "." (C.b64e payload) (C.b64e (C.mac payload)) h.dotless,
      )

  read_payload-encode :
      (username role : String) (expert : Bool) (expires later : ℕ)
      → has_char "|" username ≡ false
      → has_char "|" role ≡ false
      → IsReadable C (payload_of C username role expert expires) expires
      → read_payload C (C.encode (payload_of C username role expert expires)) later ≡ (
          if ltb expires later
          then none
          else some (record { username = username; role = role; expert = expert }))
  unfolding read_payload string_dec
  read_payload-encode username role true expires later user_ok role_ok h = ground (
    arith,
    h.decoded,
    h.number,
    split-payload_of username role true expires user_ok role_ok h.barless,
  )
  read_payload-encode username role false expires later user_ok role_ok h = ground (
    arith,
    h.decoded,
    h.number,
    split-payload_of username role false expires user_ok role_ok h.barless,
  )

  -- The cookie that was made for a user gives back the user's name, role and expert flag up to and
  -- including the second in which it expires, and nothing from then on. Neither the name nor the
  -- role has a `|`, and the libraries read what they wrote.
  pub parse_token-make_token :
      (username role : String) (ttl now later : ℕ) (expert : Bool)
      → has_char "|" username ≡ false
      → has_char "|" role ≡ false
      → IsReadable C (payload_of C username role expert (now + ttl)) (now + ttl)
      → parse_token C (some (make_token C username ttl role expert now)) later ≡ (
          if ltb (now + ttl) later
          then none
          else some (record { username = username; role = role; expert = expert }))
  unfolding parse_token
  parse_token-make_token username role ttl now later expert user_ok role_ok h =
      rw (parse_token, signed_payload-make_token username role ttl now expert h)
        (read_payload-encode username role expert (now + ttl) later user_ok role_ok h)
