-- ===== src/Pkce/Origin/Labels.antt =====
-- src/oauth_pkce.cpp: the hosts that ValidMyDomainHost accepts, as labels of a domain name.
use duckdb_data.Pkce.Origin.{
  is_dns_label_char, my_domain_suffix, Scan, scan, scan_start, scan_end, valid_my_domain_host,
}
use duckdb_data.Base.{
  ℕ, ◌+◌, ◌-◌, ◌≤◌, ◌<◌, ◌≡◌, refl, sym, ap, ◌∙◌, subst, ◌≢◌, ◌⊎◌, inl, inr, Bool, true, false, not,
  ◌&&◌, ◌||◌, Option, none, some, List, [], ◌∷◌, ◌++◌, append-nil, append_assoc, arith, ltb, leb,
  ◌==◌, if◌then◌else◌, length, get_or, take, drop, length-append, take-append-drop, All, All-append,
  Bytes, codes, is_empty, bytes_eq_iff, ends_with, back,
}

-- A letter in lower case, a digit or a hyphen, by its ASCII code.
abbrev pub IsLabelChar : ℕ → Type 0
IsLabelChar c = ((97 ≤ c) × (c ≤ 122)) ⊎ ((48 ≤ c) × (c ≤ 57)) ⊎ (c ≡ 45)

-- A label: 1 to 63 such characters, the first and the last of them no hyphen.
abbrev pub IsLabel : Bytes → Type 0
IsLabel l =
    (0 < length l) × (length l ≤ 63) × All IsLabelChar l × (get_or l 0 0 ≢ 45) × (back l ≢ 45)

-- Labels with dots between them.
abbrev pub joined : Bytes → List Bytes → Bytes
joined l [] = l
joined l (m ∷ labels) = l ++ 46 ∷ joined m labels

-- One label or more below my.salesforce.com, in at most 253 bytes.
abbrev pub IsMyDomain : Bytes → Type 0
IsMyDomain host =
    (l : Bytes) × (labels : List Bytes) × (host ≡ joined l labels ++ codes ".my.salesforce.com")
    × IsLabel l
    × All IsLabel labels
    × (length host ≤ 253)

-- The scan is behind the bytes `read` of a label.
abbrev HasRead : Bytes → Scan → Type 0
HasRead read s =
    (s.label_start ≡ is_empty read)
    × (s.label_length ≡ length read)
    × ((s.previous ≡ back read) ⊎ (is_empty read ≡ true))
    × All IsLabelChar read
    × (get_or read 0 0 ≢ 45)

-- The bytes are labels with dots between them.
abbrev AreLabels : Bytes → Type 0
AreLabels s =
    (l : Bytes) × (labels : List Bytes) × (s ≡ joined l labels) × IsLabel l × All IsLabel labels

back-append : (s : Bytes) (c : ℕ) (rest : Bytes) → back (s ++ c ∷ rest) ≡ back (c ∷ rest)
back-append [] c rest = refl
back-append (d ∷ []) c rest = refl
back-append (d ∷ e ∷ s) c rest = back-append (e ∷ s) c rest

back_behind : (s : Bytes) (c : ℕ) (rest : Bytes) → back (s ++ c ∷ rest) ≢ 45 → back rest ≢ 45
back_behind s c [] h = λ e. absurd (omega (arith, e))
back_behind s c (d ∷ rest) h = λ e. h (back-append s c (d ∷ rest) ∙ e)

is_dns_label_char-IsLabelChar : (c : ℕ) → is_dns_label_char c ≡ true → IsLabelChar c
is_dns_label_char-IsLabelChar c h = ground (arith, h)

-- Which way a round goes.
round_goes :
    (dot ends bad : Bool) (at_dot in_label : Option Scan) (r : Scan)
    → (if dot then (if ends then none else at_dot) else if bad then none else in_label) ≡ some r
    → ((dot ≡ true) × (ends ≡ false) × (at_dot ≡ some r))
      ⊎ ((dot ≡ false) × (bad ≡ false) × (in_label ≡ some r))
round_goes true true bad at_dot in_label r h = cc
round_goes true false bad at_dot in_label r h = inl (refl, refl, h)
round_goes false ends true at_dot in_label r h = cc
round_goes false ends false at_dot in_label r h = inr (refl, refl, h)

first_kept :
    (read : Bytes) (c : ℕ)
    → (is_empty read && c == 45) ≡ false
    → get_or read 0 0 ≢ 45
    → get_or (read ++ c ∷ []) 0 0 ≢ 45
first_kept [] c h k = ground (arith, h)
first_kept (d ∷ read) c h k = k

-- A label that ends at a dot or at the end.
read_IsLabel :
    (read : Bytes) (s : Scan)
    → HasRead read s
    → s.label_start ≡ false
    → s.label_length ≤ 63
    → back read ≢ 45
    → IsLabel read
read_IsLabel [] s h start most last = cc (sym start ∙ h.0)
read_IsLabel (c ∷ read) s h start most last =
    (omega arith, omega (arith, most, h.1), h.3, h.4, last)

not_empty : (s : Bytes) (c : ℕ) → is_empty (s ++ c ∷ []) ≡ false
not_empty [] c = refl
not_empty (d ∷ s) c = refl

read_one :
    (read : Bytes) (s : Scan) (c : ℕ)
    → HasRead read s
    → (not (is_dns_label_char c) || (s.label_start && c == 45)) ≡ false
    → HasRead
        (read ++ c ∷ [])
        (record { label_start = false; label_length = s.label_length + 1; previous = c })
read_one read s c h good = (
  sym (not_empty read c),
  omega (arith, h.1, length-append read (c ∷ [])),
  inl (sym (back-append read c [])),
  All-append IsLabelChar read (c ∷ []) h.3
      (is_dns_label_char-IsLabelChar c (ground (arith, good)), tt),
  first_kept read c (subst (λ b. (b && c == 45) ≡ false) h.0 (ground (arith, good))) h.4,
)

read_last :
    (read : Bytes) (s : Scan)
    → HasRead read s
    → s.label_start ≡ false
    → (s.previous == 45) ≡ false
    → back read ≢ 45
read_last read s (a, b, inl p, chars, first) start k = λ e. ground (arith, k, p, e)
read_last read s (a, b, inr p, chars, first) start k = λ e. cc (sym start ∙ (a ∙ p))

at_dot :
    (c : ℕ) (rest read : Bytes) (s : Scan)
    → HasRead read s
    → (c == 46) ≡ true
    → (s.label_start || ltb 63 s.label_length || s.previous == 45) ≡ false
    → AreLabels rest
    → AreLabels (read ++ c ∷ rest)
at_dot c rest read s h dot ends (l, labels, same, is_label, all) =
    let start : s.label_start ≡ false = ground (arith, ends) in
    let last = read_last read s h start (ground (arith, ends)) in
    let is_dot : c ≡ 46 = ground (arith, dot) in
    (
      read,
      l ∷ labels,
      rw (is_dot, same) refl,
      read_IsLabel read s h start (ground (arith, ends)) last,
      (is_label, all),
    )

scan-AreLabels :
    (rest read : Bytes) (s r : Scan)
    → HasRead read s
    → scan s rest ≡ some r
    → r.label_start ≡ false
    → r.label_length ≤ 63
    → back (read ++ rest) ≢ 45
    → AreLabels (read ++ rest)
unfolding scan
scan-AreLabels [] read s r h e start most last =
    let same : s ≡ r = ground (arith, e) in
    let l =
      read_IsLabel read s h (subst (λ x. x.label_start ≡ false) (sym same) start)
        (subst (λ x. x.label_length ≤ 63) (sym same) most)
        (subst (λ x. back x ≢ 45) (append-nil read) last) in
    (read, [], append-nil read, l, tt)
scan-AreLabels (c ∷ rest) read s r h e start most last =
    elim (round_goes (c == 46) (s.label_start || ltb 63 s.label_length || s.previous == 45)
      (not (is_dns_label_char c) || (s.label_start && c == 45)) _ _ r e) [
        | inl (dot, ends, more) ↦
            let behind =
              scan-AreLabels rest [] _ r
                (refl, refl, inr refl, tt, (λ x. absurd (omega (arith, x)))) more start most
                (back_behind read c rest last) in
            at_dot c rest read s h dot ends behind
        | inr (other, good, more) ↦
            let same : (read ++ c ∷ []) ++ rest ≡ read ++ c ∷ rest =
              append_assoc read (c ∷ []) rest in
            subst AreLabels same (
              scan-AreLabels rest (read ++ c ∷ []) _ r (read_one read s c h good) more start most
                (subst (λ x. back x ≢ 45) (sym same) last))
      ]

scan_end-AreLabels :
    (prefix : Bytes) (x : Option Scan)
    → scan scan_start prefix ≡ x
    → scan_end prefix x ≡ true
    → AreLabels prefix
scan_end-AreLabels prefix none e h = cc
scan_end-AreLabels prefix (some r) e h =
    scan-AreLabels prefix [] scan_start r
      (refl, refl, inr refl, tt, (λ x. absurd (omega (arith, x)))) e (ground (arith, h))
      (ground (arith, h)) (λ x. ground (arith, h, x))

false_or : (b x : Bool) → (if b then false else x) ≡ true → (b ≡ false) × (x ≡ true)
false_or true x h = cc
false_or false x h = (refl, h)

pub valid_my_domain_host-IsMyDomain :
    (host : Bytes) → valid_my_domain_host host ≡ true → IsMyDomain host
unfolding valid_my_domain_host
valid_my_domain_host-IsMyDomain host h =
    let n = length host - length my_domain_suffix in
    let prefix = take n host in
    let (fits, scanned) =
      false_or
        (ltb 253 (length host)
          || leb (length host) (length my_domain_suffix)
          || not (ends_with my_domain_suffix host))
        _ h in
    let (l, labels, same, is_label, all) =
      scan_end-AreLabels prefix (scan scan_start prefix) refl scanned in
    let suffix : drop n host ≡ my_domain_suffix =
      (bytes_eq_iff (drop n host) my_domain_suffix).0 (ground (arith, fits)) in
    (
      l,
      labels,
      sym (take-append-drop n host)
          ∙ ap (λ x. x ++ drop n host) same
          ∙ ap (λ x. joined l labels ++ x) suffix,
      is_label,
      all,
      ground (arith, fits),
    )
