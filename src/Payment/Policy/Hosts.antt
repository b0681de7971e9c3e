-- ===== src/Payment/Policy/Hosts.antt =====
-- The host of a URL, and the patterns that cover it (`extractDomain` and `matchDomain` of policy.go).
use Prim.Native.String.{[], ◌∷◌, ◌++◌}
use Prim.Native.Char.{code}
use text.Mathlib.TextLemmas.{nil-append, cons-append}
use mathlib.Core.List as L
use mathlib.Core.List.Memᴰ
use flowgent.Prelude.{
  String, Bool, true, none, some, List, ◌≡◌, ◌≢◌, ◌⊎◌, ◌↔◌, inl, inr, refl, sym, ap, subst, ◌∙◌,
  ◌&&◌, ◌||◌, ◌==◌, not, eqb, eq_iff, eq_refl, arith, Bool-cases, Option-cases, true-false,
  none-some, Memᴰ,
}
use flowgent.Prelude.Text.{cut_prefix, cut_prefix-append, cut_prefix-same}
use flowgent.Payment.Domain.{before, has_suffix, extract_domain, match_domain, match_any}

-- Neither a slash nor a colon.
abbrev pub is_host_text : String → Bool
is_host_text [] = true
is_host_text (c ∷ s) = not (eqb (code c) b'/') && (not (eqb (code c) b':') && is_host_text s)

-- Nothing, or a port or a path.
abbrev pub is_behind_host : String → Bool
is_behind_host [] = true
is_behind_host (c ∷ s) = eqb (code c) b'/' || eqb (code c) b':'

-- A URL is a scheme, http or https or none, a host, and what is behind it.
abbrev pub HasHost : String → String → Type 0
HasHost url host =
    (scheme rest behind : String) × (url ≡ scheme ++ rest)
    × ((scheme ≡ "https://")
        ⊎ ((scheme ≡ "http://")
            ⊎ ((scheme ≡ "")
                × (((t : String) → url ≢ "https://" ++ t)
                    × ((t : String) → url ≢ "http://" ++ t)))))
    × (rest ≡ host ++ behind)
    × (is_host_text host ≡ true)
    × (is_behind_host behind ≡ true)

-- A pattern is the host, or "*." and a domain that is the host or that the host is below.
abbrev pub Covers : String → String → Type 0
Covers pattern host =
    (pattern ≡ host)
    ⊎ ((base : String) × (pattern ≡ "*." ++ base)
        × ((host ≡ base) ⊎ ((sub : String) × (host ≡ sub ++ ("." ++ base)))))

before-host :
    (h rest : String)
    → is_host_text h ≡ true
    → is_behind_host rest ≡ true
    → before b':' (before b'/' (h ++ rest)) ≡ h
unfolding before
before-host [] [] a b = rw (nil-append "") refl
before-host [] (c ∷ s) a b = rw (nil-append (c ∷ s)) (elim (Bool-cases (eqb (code c) b'/')) [
  | inl e ↦ rw (before, e) refl
  | inr e ↦ elim (Bool-cases (eqb (code c) b':')) [
    | inl f ↦ rw (before, e, before, f) refl
    | inr f ↦ absurd (ground (arith, b))
  ]
])
before-host (c ∷ h) rest a b =
    rw (cons-append c h rest) (ground (arith, before-host h rest (ground arith) b))

-- What is behind the first occurrence of neither.
split_host :
    (s : String)
    → (behind : String) × (s ≡ before b':' (before b'/' s) ++ behind)
      × (is_host_text (before b':' (before b'/' s)) ≡ true)
      × (is_behind_host behind ≡ true)
unfolding before
split_host [] = ("", sym (nil-append ""), refl, refl)
split_host (c ∷ s) = elim (Bool-cases (eqb (code c) b'/')) [
  | inl e ↦ rw e (c ∷ s, sym (nil-append (c ∷ s)), refl, ground arith)
  | inr e ↦ elim (Bool-cases (eqb (code c) b':')) [
    | inl f ↦ rw (e, f) (c ∷ s, sym (nil-append (c ∷ s)), refl, ground arith)
    | inr f ↦
        let (behind, q, h, b) = split_host s in
        rw (e, f)
          (
            behind,
            ap (λ z. c ∷ z) q ∙ sym (cons-append c (before b':' (before b'/' s)) behind),
            ground (arith, h),
            b,
          )
  ]
]

-- The extracted domain is the one host of the URL.
has_host : (url : String) → HasHost url (extract_domain url)
unfolding extract_domain
has_host url = elim (Option-cases (cut_prefix url "https://")) [
  | inr (s, e) ↦
      let (behind, q, h, b) = split_host s in
      rw (extract_domain, e)
        ("https://", s, behind, cut_prefix-append url "https://" s e, inl refl, q, h, b)
  | inl e ↦ elim (Option-cases (cut_prefix url "http://")) [
    | inr (s, f) ↦
        let (behind, q, h, b) = split_host s in
        rw (extract_domain, e, f)
          ("http://", s, behind, cut_prefix-append url "http://" s f, inr (inl refl), q, h, b)
    | inl f ↦
        let (behind, q, h, b) = split_host url in
        rw (extract_domain, e, f)
          (
            "",
            url,
            behind,
            sym (nil-append url),
            inr (inr (refl, (no_prefix url "https://" e, no_prefix url "http://" f))),
            q,
            h,
            b,
          )
  ]
]
  where
    no_prefix : (url p : String) → cut_prefix url p ≡ none → (t : String) → url ≢ p ++ t
    no_prefix url p e t q = none-some (sym e ∙ ap (λ z. cut_prefix z p) q ∙ cut_prefix-same p t)

http_not_https : (s : String) → cut_prefix ("http://" ++ s) "https://" ≡ none
unfolding cut_prefix
http_not_https s =
    rw (cons-append)
      (rw (cons-append) (rw (cons-append) (rw (cons-append) (rw (cons-append) refl))))

uncut : (url p : String) → ((t : String) → url ≢ p ++ t) → cut_prefix url p ≡ none
uncut url p k = elim (Option-cases (cut_prefix url p)) [
  | inl e ↦ e
  | inr (t, e) ↦ absurd (k t (cut_prefix-append url p t e))
]

one_host : (url host : String) → HasHost url host → extract_domain url ≡ host
unfolding extract_domain
one_host url host (scheme, rest, behind, u, k, r, h, b) =
    let same : before b':' (before b'/' rest) ≡ host =
      ap (λ z. before b':' (before b'/' z)) r ∙ before-host host behind h b in
    elim k [
      | inl e ↦
          let v : url ≡ "https://" ++ rest = u ∙ ap (λ z. z ++ rest) e in
          let cut : cut_prefix url "https://" ≡ some rest =
            ap (λ z. cut_prefix z "https://") v ∙ cut_prefix-same "https://" rest in
          rw (extract_domain, cut) same
      | inr (inl e) ↦
          let v : url ≡ "http://" ++ rest = u ∙ ap (λ z. z ++ rest) e in
          let uncut : cut_prefix url "https://" ≡ none =
            ap (λ z. cut_prefix z "https://") v ∙ http_not_https rest in
          let cut : cut_prefix url "http://" ≡ some rest =
            ap (λ z. cut_prefix z "http://") v ∙ cut_prefix-same "http://" rest in
          rw (extract_domain, uncut, cut) same
      | inr (inr (e, (p, q))) ↦
          let v : url ≡ rest = u ∙ ap (λ z. z ++ rest) e ∙ nil-append rest in
          rw (extract_domain, uncut url "https://" p, uncut url "http://" q)
            (ap (λ z. before b':' (before b'/' z)) v ∙ same)
    ]

has_suffix-below : (s t : String) → has_suffix s t ≡ true → (sub : String) × (s ≡ sub ++ t)
unfolding has_suffix
has_suffix-below [] t h = ("", sym (nil-append "") ∙ ap (λ z. "" ++ z) (sym ((eq_iff t "").0 h)))
has_suffix-below (c ∷ s) t h = elim (Bool-cases (t == (c ∷ s))) [
  | inl e ↦ ("", sym (nil-append (c ∷ s)) ∙ ap (λ z. "" ++ z) (sym ((eq_iff t (c ∷ s)).0 e)))
  | inr e ↦
      let (sub, q) = has_suffix-below s t (rw (has_suffix, e) at h) in
      (c ∷ sub, ap (λ z. c ∷ z) q ∙ sym (cons-append c sub t))
]

has_suffix-same : (t : String) → has_suffix t t ≡ true
unfolding has_suffix
has_suffix-same [] = refl
has_suffix-same (c ∷ t) = ground (arith, eq_refl (c ∷ t))

has_suffix-append : (sub t : String) → has_suffix (sub ++ t) t ≡ true
unfolding has_suffix
has_suffix-append [] t = subst (λ z. has_suffix z t ≡ true) (sym (nil-append t)) (has_suffix-same t)
has_suffix-append (c ∷ sub) t = rw (cons-append c sub t) (ground (arith, has_suffix-append sub t))

match_domain_iff : (p d : String) → (match_domain p d ≡ true) ↔ Covers p d
unfolding match_domain
match_domain_iff p d = (to, from)
  where
    to : match_domain p d ≡ true → Covers p d
    to h = elim (Bool-cases (p == d)) [
      | inl e ↦ inl ((eq_iff p d).0 e)
      | inr e ↦ elim (Option-cases (cut_prefix p "*.")) [
        | inl q ↦ absurd (true-false (sym (rw (match_domain, e, q) at h)))
        | inr (base, q) ↦ inr (
          base,
          cut_prefix-append p "*." base q,
          elim (Bool-cases (has_suffix d ("." ++ base))) [
            | inl f ↦ inr (has_suffix-below d ("." ++ base) f)
            | inr f ↦ inl ((eq_iff d base).0 (rw (match_domain, e, q, f) at h))
          ],
        )
      ]
    ]

    from : Covers p d → match_domain p d ≡ true
    from c = elim (Bool-cases (p == d)) [
      | inl e ↦ rw (match_domain, e) refl
      | inr e ↦ elim c [
        | inl q ↦ absurd (true-false (sym ((eq_iff p d).1 q) ∙ e))
        | inr (base, q, k) ↦
            let cut : cut_prefix p "*." ≡ some base =
              ap (λ z. cut_prefix z "*.") q ∙ cut_prefix-same "*." base in
            elim k [
              | inl x ↦ rw (match_domain, e, cut) (ground (arith, (eq_iff d base).1 x))
              | inr (sub, x) ↦
                  rw (match_domain, e, cut)
                    (ground (
                      arith,
                      ap (λ z. has_suffix z ("." ++ base)) x ∙ has_suffix-append sub ("." ++ base),
                    ))
            ]
      ]
    ]

match_any_iff :
    (ps : List String) (d : String)
    → (match_any ps d ≡ true) ↔ ((p : String) × Memᴰ p ps × Covers p d)
unfolding match_any
match_any_iff L.[] d = ((λ h. absurd (true-false (sym h))), (λ (p, m, c). absurd (Memᴰ.not-nil m)))
match_any_iff (L.◌∷◌ q ps) d =
    let (to, from) = match_any_iff ps d in
    (
      (λ h. elim (Bool-cases (match_domain q d)) [
        | inl e ↦ (q, Memᴰ.head refl, (match_domain_iff q d).0 e)
        | inr e ↦ let (p, m, c) = to (rw (match_any, e) at h) in (p, Memᴰ.tail m, c)
      ]),
      (λ (p, m, c). elim (Memᴰ.cases_cons m) [
        | inl e ↦ rw (match_any, (match_domain_iff q d).1 (subst (λ z. Covers z d) e c)) refl
        | inr k ↦ ground (arith, from (p, k, c))
      ]),
    )

-- Some pattern of a list covers the host of the URL.
abbrev pub SomeCovers : List String → String → Type 0
SomeCovers ps url = (p host : String) × Memᴰ p ps × HasHost url host × Covers p host

pub matched_iff :
    (ps : List String) (url : String)
    → (match_any ps (extract_domain url) ≡ true) ↔ SomeCovers ps url
matched_iff ps url = (
  (λ h.
      let (p, m, c) = (match_any_iff ps (extract_domain url)).0 h in
      (p, extract_domain url, m, has_host url, c)),
  (λ (p, host, m, u, c).
      (match_any_iff ps (extract_domain url)).1
        (p, m, subst (Covers p) (sym (one_host url host u)) c)),
)
