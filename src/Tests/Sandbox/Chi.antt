-- ===== src/Tests/Sandbox/Chi.antt =====
-- A multiplexer that meets the laws of chi: literal patterns first, then the parameter.
use url_shortener.Common.{
  ◌≡◌, ◌&&◌, refl, sym, ap, ◌∙◌, inl, inr, true, false, Bool-cases, Bytes, codes, List, [], ◌∷◌,
  ◌++◌, append-nil, Option, none, some, text_eq, text_eq→eq, text_eq_refl, if◌then◌else◌, arith,
}
use url_shortener.Router.{Target, Entry, handle, under, Match, matched, unmatched}
use url_shortener.Router.Mux.{is_without, is_literal, is_elsewhere, is_apart, are_all, MuxLaws}

unfoldable pub literal : Bytes → Bytes → List Entry → Option Target
literal m path [] = none
literal m path (handle m' pattern t ∷ rest) =
    if is_literal pattern && (text_eq pattern path && text_eq m' m)
    then some t
    else literal m path rest
literal m path (under prefix group ∷ rest) = literal m path rest

unfoldable pub parameter : Bytes → List Entry → Option Target
parameter m [] = none
parameter m (handle m' pattern t ∷ rest) =
    if text_eq pattern (codes "/{code}") && text_eq m' m then some t else parameter m rest
parameter m (under prefix group ∷ rest) = parameter m rest

unfoldable pub after_slash : Bytes → Bytes
after_slash [] = []
after_slash (c ∷ s) = s

unfoldable pub first_of : Option Target → Option Target → Bytes → Match
first_of (some t) o code = matched t []
first_of none (some t) code = matched t code
first_of none none code = unmatched

unfoldable pub lookup : List Entry → Bytes → Bytes → Match
unfolding literal parameter after_slash first_of
lookup es m path = first_of (literal m path es) (parameter m es) (after_slash path)

literal_here :
    (m path : Bytes) (t : Target) (before behind : List Entry)
    → are_all (is_elsewhere path) before ≡ true
    → is_literal path ≡ true
    → literal m path (before ++ (handle m path t ∷ behind)) ≡ some t
unfolding literal are_all is_elsewhere
literal_here m path t [] behind h lit = rw (lit, text_eq_refl path, text_eq_refl m) refl
literal_here m path t (handle m' pattern u ∷ rest) behind h lit =
    let e : text_eq pattern path ≡ false = ground arith in
    let g : are_all (is_elsewhere path) rest ≡ true = ground arith in
    elim (Bool-cases (is_literal pattern)) [
      | inl x ↦ rw (x, e) (literal_here m path t rest behind g lit)
      | inr x ↦ rw x (literal_here m path t rest behind g lit)
    ]
literal_here m path t (under prefix group ∷ rest) behind h lit =
    literal_here m path t rest behind (ground arith) lit

literal-none :
    (m path : Bytes) (es more : List Entry)
    → are_all (is_apart path) es ≡ true
    → literal m path more ≡ none
    → literal m path (es ++ more) ≡ none
unfolding literal are_all is_apart is_elsewhere
literal-none m path [] more h none_more = none_more
literal-none m path (handle m' pattern u ∷ rest) more h none_more =
    let x : is_literal pattern ≡ true = ground arith in
    let e : text_eq pattern path ≡ false = ground arith in
    rw (x, e) (literal-none m path rest more (ground arith) none_more)
literal-none m path (under prefix group ∷ rest) more h none_more =
    literal-none m path rest more (ground arith) none_more

-- A literal pattern is not that of the parameter.
not_parameter :
    (pattern : Bytes) → is_literal pattern ≡ true → text_eq pattern (codes "/{code}") ≡ false
unfolding is_literal is_without
not_parameter pattern h = elim (Bool-cases (text_eq pattern (codes "/{code}"))) [
  | inl e ↦
      let x : is_literal (codes "/{code}") ≡ true =
        ap is_literal (sym (text_eq→eq pattern (codes "/{code}") e)) ∙ h in
      absurd (ground arith)
  | inr e ↦ e
]

parameter_here :
    (m path : Bytes) (t : Target) (before behind : List Entry)
    → are_all (is_apart path) before ≡ true
    → parameter m (before ++ (handle m (codes "/{code}") t ∷ behind)) ≡ some t
unfolding parameter are_all is_apart text_eq
parameter_here m path t [] behind h = rw (text_eq_refl m) refl
parameter_here m path t (handle m' pattern u ∷ rest) behind h =
    let e = not_parameter pattern (ground arith) in
    rw e (parameter_here m path t rest behind (ground arith))
parameter_here m path t (under prefix group ∷ rest) behind h =
    parameter_here m path t rest behind (ground arith)

parameter_no_literal :
    (m path : Bytes) (t : Target) (behind : List Entry)
    → are_all (is_apart path) behind ≡ true
    → literal m path (handle m (codes "/{code}") t ∷ behind) ≡ none
unfolding literal is_literal is_without
parameter_no_literal m path t behind h =
    ap (literal m path) (sym (append-nil behind)) ∙ literal-none m path behind [] h refl

pub lookup-MuxLaws : MuxLaws lookup
unfolding lookup first_of
lookup-MuxLaws = record {
  fixed = λ es m path t reg lit.
      rw (reg.split, literal_here m path t reg.before reg.behind reg.earlier lit) refl;
  captured = λ es m code t reg some_code plain.
      rw
        (
          reg.split,
          literal-none m (codes "/" ++ code) reg.before _ reg.earlier
              (parameter_no_literal m (codes "/" ++ code) t reg.behind reg.later),
          parameter_here m (codes "/" ++ code) t reg.before reg.behind reg.earlier,
        )
        refl;
}
