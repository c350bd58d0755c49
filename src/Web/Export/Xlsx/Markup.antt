-- ===== src/Web/Export/Xlsx/Markup.antt =====
-- A reader of XML tags, as far as internal/web/xlsx.go needs one: what opens and what closes.
use pos_agent.Base.{
  ℕ, ◌≡◌, refl, ap, ◌∙◌, ◌||◌, List, [], ◌∷◌, ◌++◌, All, Text, if◌then◌else◌, nat_eqb, arith,
}
use pos_agent.Web.Export.Escaping.{IsPlain}

-- Where a reader of XML is, with the names of the elements that are open, the innermost first: outside
-- a tag, behind its `<`, in a declaration, in a name that opens, among the attributes, in a quoted value,
-- behind the `/` of an empty element, in a closing tag with what is left of its element's name, or at an
-- error.
pub data Place : Type 0 where
  outside : List Text → Place
  opening : List Text → Place
  declared : List Text → Place
  named : List Text → Text → Place
  attributes : List Text → Text → Place
  quoted : List Text → Text → Place
  empty : List Text → Place
  closing : List Text → Text → Place
  broken : Place

abbrev closing_innermost : List Text → Place
closing_innermost [] = broken
closing_innermost (name ∷ above) = closing above name

-- A tag is `<? ... >`, `<name ... >`, `<name ... />` or `</name>`, which closes the innermost element and
-- has its name; an angle bracket stands nowhere else.
unfoldable pub read_char : ℕ → Place → Place
read_char c (outside above) =
    if nat_eqb c b'<' then opening above else if nat_eqb c b'>' then broken else outside above
read_char c (opening above) =
    if nat_eqb c b'?'
    then declared above
    else if nat_eqb c b'/'
    then closing_innermost above
    else if nat_eqb c b'>' || nat_eqb c b'<' || nat_eqb c b' '
    then broken
    else named above (c ∷ [])
read_char c (declared above) =
    if nat_eqb c b'>' then outside above else if nat_eqb c b'<' then broken else declared above
read_char c (named above name) =
    if nat_eqb c b' '
    then attributes above name
    else if nat_eqb c b'>'
    then outside (name ∷ above)
    else if nat_eqb c b'/'
    then empty above
    else if nat_eqb c b'<' || nat_eqb c b'"'
    then broken
    else named above (name ++ c ∷ [])
read_char c (attributes above name) =
    if nat_eqb c b'"'
    then quoted above name
    else if nat_eqb c b'>'
    then outside (name ∷ above)
    else if nat_eqb c b'/'
    then empty above
    else if nat_eqb c b'<'
    then broken
    else attributes above name
read_char c (quoted above name) =
    if nat_eqb c b'"'
    then attributes above name
    else if nat_eqb c b'<'
    then broken
    else quoted above name
read_char c (empty above) = if nat_eqb c b'>' then outside above else broken
read_char c (closing above []) = if nat_eqb c b'>' then outside above else broken
read_char c (closing above (n ∷ name)) = if nat_eqb c n then closing above name else broken
read_char c broken = broken

unfoldable pub read_markup : Text → Place → Place
unfolding read_char
read_markup [] p = p
read_markup (c ∷ s) p = read_markup s (read_char c p)

pub read_markup-append :
    (s t : Text) (p : Place) → read_markup (s ++ t) p ≡ read_markup t (read_markup s p)
unfolding read_markup
read_markup-append [] t p = refl
read_markup-append (c ∷ s) t p = read_markup-append s t (read_char c p)

-- A text that leads from one place to another.
abbrev pub Leads : Text → Place → Place → Type 0
Leads s p q = read_markup s p ≡ q

Leads-append : (s t : Text) (p q r : Place) → Leads s p q → Leads t q r → Leads (s ++ t) p r
Leads-append s t p q r h k = read_markup-append s t p ∙ ap (read_markup t) h ∙ k

pub IsPlain-outside : (s : Text) (d : List Text) → All IsPlain s → Leads s (outside d) (outside d)
unfolding read_markup read_char
IsPlain-outside [] d h = refl
IsPlain-outside (c ∷ s) d ((left, right, double, single, legal), h) =
    ap (read_markup s) (ground (arith, left, right)) ∙ IsPlain-outside s d h

pub IsPlain-quoted :
    (s : Text) (above : List Text) (name : Text)
    → All IsPlain s
    → Leads s (quoted above name) (quoted above name)
unfolding read_markup read_char
IsPlain-quoted [] above name h = refl
IsPlain-quoted (c ∷ s) above name ((left, right, double, single, legal), h) =
    ap (read_markup s) (ground (arith, left, double)) ∙ IsPlain-quoted s above name h

-- A text that closes all that it opens.
abbrev pub Closes : Text → Type 0
Closes s = (d : List Text) → Leads s (outside d) (outside d)

pub Closes-append : (s t : Text) → Closes s → Closes t → Closes (s ++ t)
Closes-append s t h k d = Leads-append s t (outside d) (outside d) (outside d) (h d) (k d)
