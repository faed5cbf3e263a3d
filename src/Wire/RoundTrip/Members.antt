-- ===== src/Wire/RoundTrip/Members.antt =====
-- A struct that is read from members, one of them behind the others.
use claude_code_socket_trans.Json.Structs.{assign_all, assign_more}
use claude_code_socket_trans.Json.{Fields, field, text, no_fields, Json, append_field}
use claude_code_socket_trans.Wire.RoundTrip.Tokens.{optional_field}
use claude_code_socket_trans.Base.{
  Bytes, some, ◌≡◌, [], refl, Option, is-cases, inl, ap, ◌∙◌, inr, none,
}

module _ {S : Type 0} (assign : Bytes → Json → S → Option S) where
  pub assign_all-append_field :
      (fs : Fields) (k : Bytes) (v : Json) (s : S)
      → assign_all assign (append_field fs k v) s
        ≡ assign_more assign (assign k v) (assign_all assign fs s)
  unfolding assign_all append_field
  assign_all-append_field no_fields k v s = one (assign k v s)
    where
      one : (r : Option S) → assign_more assign (assign_all assign no_fields) r ≡ r
      one none = refl
      one (some t) = refl
  assign_all-append_field (field j w fs) k v s =
      next (assign j w s) (λ t. assign_all-append_field fs k v t)
    where
      next :
          (r : Option S)
          → ((t : S)
              → assign_all assign (append_field fs k v) t
                ≡ assign_more assign (assign k v) (assign_all assign fs t))
          → assign_more assign (assign_all assign (append_field fs k v)) r
            ≡ assign_more assign (assign k v) (assign_more assign (assign_all assign fs) r)
      next none more = refl
      next (some t) more = more t

  -- An optional member, where an empty one would change nothing.
  pub assign_all-optional_field :
      (fs : Fields) (k s : Bytes) (x y z : S)
      → assign_all assign fs x ≡ some y
      → assign k (text s) y ≡ some z
      → (s ≡ [] → y ≡ z)
      → assign_all assign (optional_field fs k s) x ≡ some z
  assign_all-optional_field fs k s x y z e q n = elim (is-cases s []) [
    | inl (b, h) ↦ rw b (e ∙ ap some (n h))
    | inr (b, _) ↦ rw b (
        assign_all-append_field fs k (text s) x ∙ ap (assign_more assign (assign k (text s))) e ∙ q)
  ]
