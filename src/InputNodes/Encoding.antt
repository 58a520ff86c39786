-- ===== src/InputNodes/Encoding.antt =====
-- Writing and reading the segments of a canonical path.
use Prim.Native.Char.{Char}
use Prim.Native.String.{◌++◌}
use text.Mathlib.TextEquality.{Char-path}
use text.Mathlib.TextLemmas.{nil-append, cons-append, append-nil, append_assoc}
use restscope.Prelude.{
  ◌≡◌, refl, ap, sym, ◌∙◌, String, true, false, none, some, if◌then◌else◌, Bool-cases, subst, inl,
  inr, arith,
}
use restscope.InputNodes.Segments.{
  is_char, replace_char, replace_pair, segment, unsegment, up_to, without_prefix, property_path,
  property_name,
}

is_char-eq : (c d : Char) → is_char c d ≡ true → c ≡ d
is_char-eq c d h = Char-path c d (ground arith)

two-append :
    (a b : Char) (s : String) → String.◌∷◌ a (String.◌∷◌ b "") ++ s ≡ String.◌∷◌ a (String.◌∷◌ b s)
two-append a b s =
    cons-append a (String.◌∷◌ b "") s
    ∙ ap (String.◌∷◌ a) (cons-append b "" s ∙ ap (String.◌∷◌ b) (nil-append s))

one-append : (a : Char) (s : String) → String.◌∷◌ a "" ++ s ≡ String.◌∷◌ a s
one-append a s = cons-append a "" s ∙ ap (String.◌∷◌ a) (nil-append s)

replace_char-same :
    (c : Char) (new s : String)
    → is_char c c ≡ true
    → replace_char c new (String.◌∷◌ c s) ≡ new ++ replace_char c new s
unfolding replace_char
replace_char-same c new s same = rw same refl

replace_char-other :
    (c d : Char) (new s : String)
    → is_char d c ≡ false
    → replace_char c new (String.◌∷◌ d s) ≡ String.◌∷◌ d (replace_char c new s)
unfolding replace_char
replace_char-other c d new s other = rw other refl

replace_pair-same :
    (a b : Char) (new s : String)
    → is_char a a ≡ true
    → is_char b b ≡ true
    → replace_pair a b new (String.◌∷◌ a (String.◌∷◌ b s)) ≡ new ++ replace_pair a b new s
unfolding replace_pair
replace_pair-same a b new s first second = rw (first, second) refl

replace_pair-second :
    (a b c : Char) (new s : String)
    → is_char c b ≡ false
    → replace_pair a b new (String.◌∷◌ a (String.◌∷◌ c s))
      ≡ String.◌∷◌ a (replace_pair a b new (String.◌∷◌ c s))
unfolding replace_pair
replace_pair-second a b c new s other = ground arith

replace_pair-other :
    (a b c : Char) (new s : String)
    → is_char c a ≡ false
    → replace_pair a b new (String.◌∷◌ c s) ≡ String.◌∷◌ c (replace_pair a b new s)
unfolding replace_pair
replace_pair-other a b c new String.[] other = refl
replace_pair-other a b c new (String.◌∷◌ d s) other = rw other refl

abbrev escaped : String → String
escaped s = replace_char "~" "~0" s

escaped-tilde :
    (s : String) → escaped (String.◌∷◌ "~" s) ≡ String.◌∷◌ "~" (String.◌∷◌ "0" (escaped s))
escaped-tilde s = replace_char-same "~" "~0" s refl ∙ two-append "~" "0" (escaped s)

segment-tilde :
    (s : String) → segment (String.◌∷◌ "~" s) ≡ String.◌∷◌ "~" (String.◌∷◌ "0" (segment s))
unfolding segment
segment-tilde s =
    ap (replace_char "/" "~1") (escaped-tilde s)
    ∙ replace_char-other "/" "~" "~1" (String.◌∷◌ "0" (escaped s)) refl
    ∙ ap (String.◌∷◌ "~") (replace_char-other "/" "0" "~1" (escaped s) refl)

segment-slash :
    (s : String) → segment (String.◌∷◌ "/" s) ≡ String.◌∷◌ "~" (String.◌∷◌ "1" (segment s))
unfolding segment
segment-slash s =
    ap (replace_char "/" "~1") (replace_char-other "~" "/" "~0" s refl)
    ∙ replace_char-same "/" "~1" (escaped s) refl
    ∙ two-append "~" "1" (segment s)

segment-plain :
    (c : Char) (s : String)
    → is_char c "~" ≡ false
    → is_char c "/" ≡ false
    → segment (String.◌∷◌ c s) ≡ String.◌∷◌ c (segment s)
unfolding segment
segment-plain c s not_tilde not_slash =
    ap (replace_char "/" "~1") (replace_char-other "~" c "~0" s not_tilde)
    ∙ replace_char-other "/" c "~1" (escaped s) not_slash

-- A property of all texts, by the three kinds of a first character.
by_character {ℓ} :
    (P : String → Type ℓ)
    → P ""
    → ((s : String) → P s → P (String.◌∷◌ "~" s))
    → ((s : String) → P s → P (String.◌∷◌ "/" s))
    → ((c : Char) (s : String)
        → is_char c "~" ≡ false
        → is_char c "/" ≡ false
        → P s
        → P (String.◌∷◌ c s))
    → (s : String) → P s
by_character P empty tilde slash plain String.[] = empty
by_character P empty tilde slash plain (String.◌∷◌ c s) =
    let rest = by_character P empty tilde slash plain s in
    elim (Bool-cases (is_char c "~")) [
      | inl e ↦ subst (λ d. P (String.◌∷◌ d s)) (sym (is_char-eq c "~" e)) (tilde s rest)
      | inr not_tilde ↦ elim (Bool-cases (is_char c "/")) [
        | inl e ↦ subst (λ d. P (String.◌∷◌ d s)) (sym (is_char-eq c "/" e)) (slash s rest)
        | inr not_slash ↦ plain c s not_tilde not_slash rest
      ]
    ]

abbrev unslashed : String → String
unslashed s = replace_pair "~" "1" "/" s

abbrev untilded : String → String
untilded s = replace_pair "~" "0" "~" s

segment-empty : unslashed (segment "") ≡ escaped ""
unfolding segment replace_pair
segment-empty = refl

escaped-empty : untilded (escaped "") ≡ ""
unfolding replace_char replace_pair
escaped-empty = refl

untilded-plain :
    (c : Char) (s : String)
    → is_char c "~" ≡ false
    → untilded (escaped s) ≡ s
    → untilded (escaped (String.◌∷◌ c s)) ≡ String.◌∷◌ c s
untilded-plain c s not_tilde rest =
    ap untilded (replace_char-other "~" c "~0" s not_tilde)
    ∙ replace_pair-other "~" "0" c "~" (escaped s) not_tilde
    ∙ ap (String.◌∷◌ c) rest

-- The second replacement of `_segment` is undone first.
unslashed-segment : (s : String) → unslashed (segment s) ≡ escaped s
unslashed-segment =
    by_character (λ s. unslashed (segment s) ≡ escaped s) segment-empty
      (λ s rest.
        ap unslashed (segment-tilde s)
        ∙ replace_pair-second "~" "1" "0" "/" (segment s) refl
        ∙ ap (String.◌∷◌ "~")
            (replace_pair-other "~" "1" "0" "/" (segment s) refl ∙ ap (String.◌∷◌ "0") rest)
        ∙ sym (escaped-tilde s))
      (λ s rest.
        ap unslashed (segment-slash s)
        ∙ replace_pair-same "~" "1" "/" (segment s) refl refl
        ∙ one-append "/" (unslashed (segment s))
        ∙ ap (String.◌∷◌ "/") rest
        ∙ sym (replace_char-other "~" "/" "~0" s refl))
      (λ c s not_tilde not_slash rest.
        ap unslashed (segment-plain c s not_tilde not_slash)
        ∙ replace_pair-other "~" "1" c "/" (segment s) not_tilde
        ∙ ap (String.◌∷◌ c) rest
        ∙ sym (replace_char-other "~" c "~0" s not_tilde))

untilded-escaped : (s : String) → replace_pair "~" "0" "~" (escaped s) ≡ s
untilded-escaped =
    by_character (λ s. untilded (escaped s) ≡ s) escaped-empty
      (λ s rest.
        ap untilded (escaped-tilde s)
        ∙ replace_pair-same "~" "0" "~" (escaped s) refl refl
        ∙ one-append "~" (untilded (escaped s))
        ∙ ap (String.◌∷◌ "~") rest)
      (λ s rest. untilded-plain "/" s refl rest)
      (λ c s not_tilde not_slash rest. untilded-plain c s not_tilde rest)

-- What `_segment` writes, `_unsegment` reads back.
pub unsegment-segment : (value : String) → unsegment (segment value) ≡ value
unfolding unsegment
unsegment-segment value =
    ap (replace_pair "~" "0" "~") (unslashed-segment value) ∙ untilded-escaped value

up_to-other :
    (c d : Char) (s : String)
    → is_char d c ≡ false
    → up_to c (String.◌∷◌ d s) ≡ String.◌∷◌ d (up_to c s)
unfolding up_to
up_to-other c d s other = rw other refl

no_segment : segment "" ≡ ""
unfolding segment
no_segment = refl

-- A segment has no slash.
up_to-segment : (tail s : String) → up_to "/" (segment s ++ tail) ≡ segment s ++ up_to "/" tail
up_to-segment tail =
    by_character (λ s. up_to "/" (segment s ++ tail) ≡ segment s ++ up_to "/" tail)
      (ap (up_to "/") (nothing-append tail) ∙ sym (nothing-append (up_to "/" tail)))
      (λ s rest. escaped_pair s "0" refl rest (segment-tilde s))
      (λ s rest. escaped_pair s "1" refl rest (segment-slash s))
      (λ c s not_tilde not_slash rest.
        ap (λ x. up_to "/" (x ++ tail)) (segment-plain c s not_tilde not_slash)
        ∙ one_more c (segment s) not_slash rest
        ∙ sym (ap (λ x. x ++ up_to "/" tail) (segment-plain c s not_tilde not_slash)))
  where
    nothing-append : (t : String) → segment "" ++ t ≡ t
    nothing-append t = ap (λ x. x ++ t) no_segment ∙ nil-append t

    one_more :
        (c : Char) (x : String)
        → is_char c "/" ≡ false
        → up_to "/" (x ++ tail) ≡ x ++ up_to "/" tail
        → up_to "/" (String.◌∷◌ c x ++ tail) ≡ String.◌∷◌ c x ++ up_to "/" tail
    one_more c x not_slash rest =
        ap (up_to "/") (cons-append c x tail)
        ∙ up_to-other "/" c (x ++ tail) not_slash
        ∙ ap (String.◌∷◌ c) rest
        ∙ sym (cons-append c x (up_to "/" tail))

    escaped_pair :
        {e : String} (s : String) (c : Char)
        → is_char c "/" ≡ false
        → up_to "/" (segment s ++ tail) ≡ segment s ++ up_to "/" tail
        → e ≡ String.◌∷◌ "~" (String.◌∷◌ c (segment s))
        → up_to "/" (e ++ tail) ≡ e ++ up_to "/" tail
    escaped_pair s c not_slash rest is =
        ap (λ x. up_to "/" (x ++ tail)) is
        ∙ one_more "~" (String.◌∷◌ c (segment s)) refl (one_more c (segment s) not_slash rest)
        ∙ sym (ap (λ x. x ++ up_to "/" tail) is)

without_prefix-append : (prefix s : String) → without_prefix prefix (prefix ++ s) ≡ some s
unfolding without_prefix
without_prefix-append String.[] s = ap (without_prefix "") (nil-append s)
without_prefix-append (String.◌∷◌ c prefix) s =
    ap (without_prefix (String.◌∷◌ c prefix)) (cons-append c prefix s)
    ∙ same_first c (without_prefix-append prefix s)
  where
    same_first :
        (d : Char)
        → without_prefix prefix (prefix ++ s) ≡ some s
        → (if is_char d d then without_prefix prefix (prefix ++ s) else none) ≡ some s
    same_first d rest = rw rest (ground arith)

-- The name of a property is read back from the path of its input, and from every path below it, where
-- the tail is empty or starts with a slash.
pub property_name-property_path :
    (parent_path name tail : String)
    → up_to "/" tail ≡ ""
    → property_name parent_path (property_path parent_path name ++ tail) ≡ some name
unfolding property_name
property_name-property_path parent_path name tail ends =
    let prefix = parent_path ++ "/properties/" in
    let found : without_prefix prefix (property_path parent_path name ++ tail)
        ≡ some (segment name ++ tail) =
      ap (without_prefix prefix) (append_assoc prefix (segment name) tail)
      ∙ without_prefix-append prefix (segment name ++ tail) in
    let name_only : up_to "/" (segment name ++ tail) ≡ segment name =
      up_to-segment tail name ∙ ap (λ x. segment name ++ x) ends ∙ append-nil (segment name) in
    rw (found, property_name) (ap some (ap unsegment name_only ∙ unsegment-segment name))
