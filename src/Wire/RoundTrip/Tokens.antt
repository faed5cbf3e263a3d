-- ===== src/Wire/RoundTrip/Tokens.antt =====
-- The tokens of what `json.Marshal` writes.
use claude_code_socket_trans.Json.{Fields, append_field, text}
use claude_code_socket_trans.Wire.RoundTrip.Strings.{string_body-json_from}
use mathlib.Core.Path.{subst}
use claude_code_socket_trans.Json.Strings.{string_body}
use claude_code_socket_trans.Utf8.Encoding.{IsUtf8, ascii-IsUtf8}
use claude_code_socket_trans.Wire.{json_string, optional, member, json_from}
use claude_code_socket_trans.Base.{
  List, Bytes, length, All, ◌∷◌, Option, [], ◌<◌, is-cases, ◌++◌, if◌then◌else◌, ◌≡◌, ap, inl, ◌is◌,
  append_assoc, some, inr, refl, ◌∙◌, sym, arith, length-append, ℕ, false, none, append-nil,
}
use claude_code_socket_trans.Json.Tokens.{
  tokens, Token, token_at, string, comma, in_front, colon, begin_object, end_object, string_token,
  is_white, continued,
}

tokens-passed : (a u : Bytes) → tokens (length a) (a ++ u) ≡ tokens 0 u
unfolding tokens
tokens-passed [] u = refl
tokens-passed (c ∷ a) u = tokens-passed a u

-- Tokens in front of others.
abbrev pub front : List Token → Option (List Token) → Option (List Token)
front [] x = x
front (tok ∷ toks) x = in_front tok (front toks x)

pub front-append :
    (a b : List Token) (x : Option (List Token)) → front (a ++ b) x ≡ front a (front b x)
front-append [] b x = refl
front-append (tok ∷ a) b x = ap (in_front tok) (front-append a b x)

-- The tokens that a text gives in front of any rest.
pub record Reads (a : Bytes) (toks : List Token) : Type 0 where
  pub in_front_of : (u : Bytes) → tokens 0 (a ++ u) ≡ front toks (tokens 0 u)

pub Reads-append :
    {a b : Bytes} {s t : List Token} → Reads a s → Reads b t → Reads (a ++ b) (s ++ t)
Reads-append {a} {b} {s} {t} p q = record {
  in_front_of = λ u.
      ap (tokens 0) (append_assoc a b u)
      ∙ p.in_front_of (b ++ u)
      ∙ ap (front s) (q.in_front_of u)
      ∙ sym (front-append s t (tokens 0 u));
}

tokens-step :
    (c : ℕ) (t : Bytes) (tok : Token) (skip : ℕ)
    → is_white c ≡ false
    → token_at c t ≡ some (tok, skip)
    → tokens 0 (c ∷ t) ≡ in_front tok (tokens skip t)
unfolding tokens
tokens-step c t tok skip w e =
    ap (λ x. continued x (λ k. tokens k t))
      (ap (λ b. if b then none else some (token_at c t)) w ∙ ap some e)

quote-token :
    (s a u : Bytes)
    → string_body 0 (a ++ u) ≡ some (s, length a)
    → tokens 0 (b'"' ∷ (a ++ u)) ≡ in_front (string s) (tokens 0 u)
unfolding token_at
quote-token s a u e =
    tokens-step b'"' (a ++ u) (string s) (length a) refl (ap string_token e)
    ∙ ap (in_front (string s)) (tokens-passed a u)

pub json_string-Reads : (s : Bytes) → IsUtf8 s → Reads (json_string s) (string s ∷ [])
unfolding json_string
json_string-Reads s h = record {
  in_front_of = λ u. quote-token s (json_from 0 s ++ (b'"' ∷ [])) u (
      ap (string_body 0) (append_assoc (json_from 0 s) (b'"' ∷ []) u)
      ∙ string_body-json_from h u
      ∙ ap (λ n. some (s, n)) (omega (arith, length-append (json_from 0 s) (b'"' ∷ []))));
}

-- A text of punctuation and keys.
pub comma-Reads : Reads (b',' ∷ []) (comma ∷ [])
unfolding tokens token_at
comma-Reads = record { in_front_of = λ u. refl }

pub colon-Reads : Reads (b':' ∷ []) (colon ∷ [])
unfolding tokens token_at
colon-Reads = record { in_front_of = λ u. refl }

pub begin_object-Reads : Reads (b'{' ∷ []) (begin_object ∷ [])
unfolding tokens token_at
begin_object-Reads = record { in_front_of = λ u. refl }

pub end_object-Reads : Reads (b'}' ∷ []) (end_object ∷ [])
unfolding tokens token_at
end_object-Reads = record { in_front_of = λ u. refl }

-- A name of ASCII that needs no escapes.
pub record IsName (key : Bytes) : Type 0 where
  pub ascii : All (λ c. c < 0x80) key
  pub spelled : json_from 0 key ≡ key

abbrev pub member_tokens : Bytes → List Token → List Token
member_tokens key toks = comma ∷ string key ∷ colon ∷ toks

pub key-Reads : (key : Bytes) → IsName key → Reads (b'"' ∷ (key ++ (b'"' ∷ []))) (string key ∷ [])
key-Reads key n =
    subst (λ k. Reads (b'"' ∷ (k ++ (b'"' ∷ []))) (string key ∷ [])) n.spelled
      (unfold json_string in json_string-Reads key (ascii-IsUtf8 key n.ascii))

pub named-Reads :
    (key value : Bytes) (toks : List Token)
    → IsName key
    → Reads value toks
    → Reads (b'"' ∷ (key ++ (b'"' ∷ b':' ∷ value))) (string key ∷ colon ∷ toks)
named-Reads key value toks n r =
    subst (λ a. Reads (b'"' ∷ a) (string key ∷ colon ∷ toks))
      (append_assoc key (b'"' ∷ []) (b':' ∷ value))
      (Reads-append (key-Reads key n) (Reads-append colon-Reads r))

pub member-Reads :
    (key value : Bytes) (toks : List Token)
    → IsName key
    → Reads value toks
    → Reads (member key value) (member_tokens key toks)
member-Reads key value toks n r = Reads-append comma-Reads (named-Reads key value toks n r)

abbrev pub optional_tokens : Bytes → Bytes → List Token
optional_tokens key s = if s is [] then [] else member_tokens key (string s ∷ [])

pub optional-Reads :
    (key s : Bytes) → IsName key → IsUtf8 s → Reads (optional key s) (optional_tokens key s)
unfolding optional
optional-Reads key s n h = elim (is-cases s []) [
  | inl (b, _) ↦ rw b (record { in_front_of = λ u. refl })
  | inr (f, _) ↦ rw f (member-Reads key (json_string s) (string s ∷ []) n (json_string-Reads s h))
]

pub front-some : (toks : List Token) → front toks (some []) ≡ some toks
front-some [] = refl
front-some (tok ∷ toks) = ap (in_front tok) (front-some toks)

pub tokens-Reads : {a : Bytes} {toks : List Token} → Reads a toks → tokens 0 a ≡ some toks
unfolding tokens
tokens-Reads {a} {toks} r = ap (tokens 0) (sym (append-nil a)) ∙ r.in_front_of [] ∙ front-some toks

-- A string member that is left out where the string is empty.
abbrev pub optional_field : Fields → Bytes → Bytes → Fields
optional_field fs key s = if s is [] then fs else append_field fs key (text s)
