-- ===== src/Contracts/TypedIdShape.antt =====
-- The identifiers that `_TYPED_ID` matches, described by their parts.
use anar_core.Base.{
  ℕ, ◌+◌, ◌≤◌, ◌≡◌, true, false, List, [], ◌∷◌, ◌++◌, nat_eq, ap, refl, ◌∙◌, ◌↔◌, inl, inr,
  Bool-cases, arith, &&-parts, &&-intro, String,
}
use anar_core.Platform.{Platform}
use anar_core.Contracts.Text.{length, all_of, is_lower, is_digit, is_alnum, is_hex}
use anar_core.Contracts.TypedId.{is_body, is_tail, is_typed_id}

-- A kind, an underscore and a body of 32 hexadecimal digits, where `seen` characters of the kind came
-- before.
pub record IsTail (seen : ℕ) (s : List ℕ) : Type 0 where
  pub kind : List ℕ
  pub body : List ℕ
  pub shape : s ≡ kind ++ (b'_' ∷ body)
  pub kind_alnum : all_of is_alnum kind ≡ true
  pub kind_long : 1 ≤ seen + length kind
  pub kind_short : seen + length kind ≤ 15
  pub body_hex : all_of is_hex body ≡ true
  pub body_length : length body ≡ 32

-- What the expression describes.
pub record IsTypedId (s : List ℕ) : Type 0 where
  pub first : ℕ
  pub rest : List ℕ
  pub shape : s ≡ first ∷ rest
  pub first_lower : is_lower first ≡ true
  pub tail : IsTail 0 rest

is_tail-IsTail : (seen : ℕ) (s : List ℕ) → is_tail seen s ≡ true → IsTail seen s
unfolding is_tail is_body
is_tail-IsTail seen [] h = cc
is_tail-IsTail seen (c ∷ s) h = elim (Bool-cases (nat_eq c b'_')) [
  | inl e ↦
      (let h' = rw e at h in
        let same : c ≡ b'_' = ground arith in
        record {
          kind = [];
          body = s;
          shape = ap (λ x. x ∷ s) same;
          kind_alnum = refl;
          kind_long = ground arith;
          kind_short = ground arith;
          body_hex = ground arith;
          body_length = ground arith;
        })
  | inr e ↦
      (let h' = rw e at h in
        let t = is_tail-IsTail (seen + 1) s (ground arith) in
        let long = t.kind_long in
        let short = t.kind_short in
        record {
          kind = c ∷ t.kind;
          body = t.body;
          shape = ap (λ x. c ∷ x) t.shape;
          kind_alnum = ground (arith, t.kind_alnum);
          kind_long = omega arith;
          kind_short = omega arith;
          body_hex = t.body_hex;
          body_length = t.body_length;
        })
]

not_underscore : (c : ℕ) → is_alnum c ≡ true → nat_eq c b'_' ≡ false
unfolding is_alnum is_lower is_digit
not_underscore c h = ground arith

kind_and_body :
    (seen : ℕ) (kind body : List ℕ)
    → all_of is_alnum kind ≡ true
    → 1 ≤ seen + length kind
    → seen + length kind ≤ 15
    → all_of is_hex body ≡ true
    → length body ≡ 32
    → is_tail seen (kind ++ (b'_' ∷ body)) ≡ true
unfolding is_tail is_body
kind_and_body seen [] body alnum long short hex size = ground arith
kind_and_body seen (c ∷ kind) body alnum long short hex size =
    let parts = &&-parts (is_alnum c) (all_of is_alnum kind) alnum in
    let rest = kind_and_body (seen + 1) kind body parts.1 (omega arith) (omega arith) hex size in
    rw (not_underscore c parts.0) (&&-intro _ _ parts.0 rest)

-- The regular expression matches exactly the texts of this shape.
pub is_typed_id_iff : (s : List ℕ) → (is_typed_id s ≡ true) ↔ IsTypedId s
unfolding is_typed_id
is_typed_id_iff [] = (λ h. cc, λ t. cc)
is_typed_id_iff (c ∷ s) = (
  λ h.
      let parts = &&-parts (is_lower c) (is_tail 0 s) h in
      record {
        first = c;
        rest = s;
        shape = refl;
        first_lower = parts.0;
        tail = is_tail-IsTail 0 s parts.1;
      },
  λ t.
      let k = t.tail in
      let matched =
        kind_and_body 0 k.kind k.body k.kind_alnum k.kind_long k.kind_short k.body_hex
          k.body_length in
      ap is_typed_id (t.shape ∙ ap (λ x. t.first ∷ x) k.shape) ∙ &&-intro _ _ t.first_lower matched,
)

module _ ⦃platform : Platform⦄ where
  abbrev pub normalized : String → String
  normalized value = platform.lower (platform.strip value)
