-- ===== src/Daemon/Http/Laws.antt =====
-- About HttpRouter.cpp: the session id in a cookie.
use nf_engine.Prelude.{
  ℕ, ◌+◌, ◌≡◌, refl, sym, ap, ◌∙◌, [], ◌∷◌, ◌++◌, false, Option, none, some, arith, length, take,
  drop, length-append, take-append, drop-append, drop-drop, ◌==◌,
}
use nf_engine.Prelude.Texts.{Text, codes, starts_with, find}
use nf_engine.Daemon.Http.{session_key, value_end, cookie_value, extract_session}

-- A text without a semicolon.
abbrev pub Plain : Text → Type 0
Plain [] = Unit {0}
Plain (c ∷ text) = ((c == 59) ≡ false) × Plain text

-- What may stand behind a value in a list of cookies: nothing, or a semicolon and more.
pub data Behind : Text → Type 0 where
  last : Behind []
  more : (rest : Text) → Behind (59 ∷ rest)

abbrev semicolon : Text → Text → Option ℕ
semicolon text [] = none
semicolon text (c ∷ cs) = some (length text)

-- The end that it gives, of `total` bytes.
abbrev end_at : ℕ → ℕ → Option ℕ → ℕ
end_at pos total none = total
end_at pos total (some k) = pos + k

end_at-semicolon :
    (pos total : ℕ) (text : Text) {rest : Text}
    → Behind rest
    → total ≡ pos + length text + length rest
    → end_at pos total (semicolon text rest) ≡ pos + length text
end_at-semicolon pos total text last e = omega arith
end_at-semicolon pos total text (more rest) e = refl

-- The first semicolon behind a plain text, or none.
find-Plain :
    (text : Text) {rest : Text}
    → Plain text
    → Behind rest
    → find (codes ";") (text ++ rest) ≡ semicolon text rest
unfolding find starts_with
find-Plain [] plain last = refl
find-Plain [] plain (more rest) = refl
find-Plain (c ∷ text) (ne, plain) last = ground (arith, find-Plain text plain last)
find-Plain (c ∷ text) (ne, plain) (more rest) = ground (arith, find-Plain text plain (more rest))

module _ (front id : Text) {rest : Text} (plain : Plain id) (behind : Behind rest) where
  abbrev pub cookies : Text
  cookies = front ++ (session_key ++ (id ++ rest))

  key_and_id : Text
  key_and_id = session_key ++ id

  key_and_id-Plain : Plain key_and_id
  unfolding key_and_id
  key_and_id-Plain = (refl, (refl, (refl, (refl, (refl, (refl, (refl, (refl, plain))))))))

  from_key : drop (length front) cookies ≡ key_and_id ++ rest
  unfolding key_and_id
  from_key = drop-append front (session_key ++ (id ++ rest)) (length front) refl

  from_id : drop (length front + length session_key) cookies ≡ id ++ rest
  unfolding key_and_id
  from_id =
      sym (drop-drop (length front) (length session_key) cookies)
      ∙ ap (drop (length session_key)) from_key

  cookies-length : length cookies ≡ length front + length session_key + length id + length rest
  cookies-length = omega (
    arith,
    length-append front (session_key ++ (id ++ rest)),
    length-append session_key (id ++ rest),
    length-append id rest,
  )

  value_end_lem : value_end cookies (length front) ≡ length front + length session_key + length id
  unfolding value_end key_and_id
  value_end_lem =
      value_end-semicolon
      ∙ end_at-semicolon (length front) (length cookies) key_and_id behind
          (omega (arith, cookies-length))
      ∙ omega arith
    where
      split :
          (o : Option ℕ)
          → (elim o as (λ x. ℕ) [ none ↦ length cookies | some k ↦ length front + k ])
            ≡ end_at (length front) (length cookies) o
      split none = refl
      split (some k) = refl

      value_end-semicolon :
          value_end cookies (length front)
          ≡ end_at (length front) (length cookies) (semicolon key_and_id rest)
      value_end-semicolon =
          split (find (codes ";") (drop (length front) cookies))
          ∙ ap (end_at (length front) (length cookies))
              (ap (find (codes ";")) from_key ∙ find-Plain key_and_id key_and_id-Plain behind)

  -- The value of the session's cookie, which stands behind the first `session=`.
  pub extract_session-cookie :
      find session_key cookies ≡ some (length front) → extract_session (some cookies) ≡ id
  unfolding extract_session cookie_value
  extract_session-cookie found =
      rw (extract_session, found, value_end_lem)
        (ap (take _) from_id ∙ take-append id rest _ (omega arith))
