-- ===== src/Wire/RoundTrip/Reader.antt =====
-- The reader on the tokens of members.
use claude_code_socket_trans.Wire.RoundTrip.Tokens.{
  Reads, member_tokens, optional_tokens, optional_field, tokens-Reads,
}
use claude_code_socket_trans.Json.Tokens.{Token, string}
use claude_code_socket_trans.Json.Reader.{
  read_tokens, read_json, run, State, step, Open, behind_member, wants_value, finished, read_tokens,
  value_of,
}
use claude_code_socket_trans.Json.{Number, Fields, Json, append_field, text}
use claude_code_socket_trans.Base.{
  Bytes, Option, List, ◌++◌, ◌≡◌, ◌∷◌, [], is-cases, refl, inl, some, inr, ap, ◌∙◌,
}

module _ (convert : Bytes → Option Number) where
  pub run-append :
      (s : State) (a b : List Token) → run convert s (a ++ b) ≡ run convert (run convert s a) b
  unfolding run
  run-append s [] b = refl
  run-append s (tok ∷ a) b = run-append (step convert s tok) a b

  pub run-text :
      (fs : Fields) (st : List Open) (key s : Bytes)
      → run convert (behind_member fs st) (member_tokens key (string s ∷ []))
        ≡ behind_member (append_field fs key (text s)) st
  unfolding run step
  run-text fs st key s = refl

  pub run-optional :
      (fs : Fields) (st : List Open) (key s : Bytes)
      → run convert (behind_member fs st) (optional_tokens key s)
        ≡ behind_member (optional_field fs key s) st
  unfolding run
  run-optional fs st key s = elim (is-cases s []) [
    | inl (b, _) ↦ rw b refl
    | inr (f, _) ↦ rw f (run-text fs st key s)
  ]

  pub read_json-tokens :
      {a : Bytes} {toks : List Token} {v : Json}
      → Reads a toks
      → run convert (wants_value []) toks ≡ finished v
      → read_json convert a ≡ some v
  unfolding read_json
  read_json-tokens r e = ap (read_tokens convert) (tokens-Reads r) ∙ ap (value_of convert) e
