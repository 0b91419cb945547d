-- ===== src/Fiscal/Words.antt =====
-- A total in words: `enteroEnLetras` of src/modules/fiscal/siat/domain/monto-literal.ts. A call that uses
-- its fuel up is `none`.
pub mod Whole
use atlas_erpbackend.Prelude.{
  ℕ, zero, suc, ◌+◌, ◌*◌, ◌/◌, ◌%◌, Bool, true, false, not, ◌&&◌, Option, none, some, List, [], ◌∷◌,
  ◌++◌, map, ltb, ◌==◌, if◌then◌else◌,
}
use atlas_erpbackend.Text.{Text, codes, text_eq, is_space}
use atlas_erpbackend.Money.Amount.{is_nil}

abbrev pub unidades : List Text
unidades =
    []
    ∷ codes "uno"
    ∷ codes "dos"
    ∷ codes "tres"
    ∷ codes "cuatro"
    ∷ codes "cinco"
    ∷ codes "seis"
    ∷ codes "siete"
    ∷ codes "ocho"
    ∷ codes "nueve"
    ∷ codes "diez"
    ∷ codes "once"
    ∷ codes "doce"
    ∷ codes "trece"
    ∷ codes "catorce"
    ∷ codes "quince"
    ∷ codes "dieciséis"
    ∷ codes "diecisiete"
    ∷ codes "dieciocho"
    ∷ codes "diecinueve"
    ∷ codes "veinte"
    ∷ codes "veintiuno"
    ∷ codes "veintidós"
    ∷ codes "veintitrés"
    ∷ codes "veinticuatro"
    ∷ codes "veinticinco"
    ∷ codes "veintiséis"
    ∷ codes "veintisiete"
    ∷ codes "veintiocho"
    ∷ codes "veintinueve"
    ∷ []

abbrev pub decenas : List Text
decenas =
    []
    ∷ []
    ∷ []
    ∷ codes "treinta"
    ∷ codes "cuarenta"
    ∷ codes "cincuenta"
    ∷ codes "sesenta"
    ∷ codes "setenta"
    ∷ codes "ochenta"
    ∷ codes "noventa"
    ∷ []

abbrev pub centenas : List Text
centenas =
    []
    ∷ codes "ciento"
    ∷ codes "doscientos"
    ∷ codes "trescientos"
    ∷ codes "cuatrocientos"
    ∷ codes "quinientos"
    ∷ codes "seiscientos"
    ∷ codes "setecientos"
    ∷ codes "ochocientos"
    ∷ codes "novecientos"
    ∷ []

-- The word at a place of a table; the calls stay inside.
abbrev pub word_at : List Text → ℕ → Text
word_at [] i = []
word_at (w ∷ ws) zero = w
word_at (w ∷ ws) (suc i) = word_at ws i

unfoldable pub hasta_cien : ℕ → Text
hasta_cien resto =
    if ltb resto 30
    then word_at unidades resto
    else word_at decenas (resto / 10)
      ++ (if not (resto % 10 == 0) then codes " y " ++ word_at unidades (resto % 10) else [])

abbrev pub join_words : Text → Text → Text
join_words texto dentro = if is_nil texto then dentro else texto ++ (b' ' ∷ dentro)

unfoldable pub hasta_mil : ℕ → Text
hasta_mil n =
    if n == 0
    then []
    else if n == 100
    then codes "cien"
    else let texto = word_at centenas (n / 100) in
      if ltb 0 (n % 100) then join_words texto (hasta_cien (n % 100)) else texto

-- `.replace(/(^|\s)uno$/, '$1un')`, from a place that is at the start or behind white space, or not.
abbrev pub cut_uno : Bool → Text → Text
cut_uno edge [] = []
cut_uno edge (c ∷ s) =
    if edge && text_eq (c ∷ s) (codes "uno") then codes "un" else c ∷ cut_uno (is_space c) s

-- `.replace(/veintiuno$/, 'veintiún')`
abbrev pub cut_veintiuno : Text → Text
cut_veintiuno [] = []
cut_veintiuno (c ∷ s) =
    if text_eq (c ∷ s) (codes "veintiuno") then codes "veintiún" else c ∷ cut_veintiuno s

unfoldable pub apocope : Text → Text
apocope texto = cut_veintiuno (cut_uno true texto)

pub data Words : Type 0 where
  words : Text → Words
  out_of_range : Words

abbrev pub largest : ℕ
largest = 999999999999

-- `partes.join(' ')`
abbrev pub join_all : List Text → Text
join_all [] = []
join_all (s ∷ []) = s
join_all (s ∷ (t ∷ ts)) = s ++ (b' ' ∷ join_all (t ∷ ts))

abbrev pub part_if : Bool → Text → List Text
part_if b s = if b then s ∷ [] else []

-- The words behind those of the millions.
abbrev pub miles_y_resto : ℕ → List Text
miles_y_resto n =
    let miles = n % 1000000 / 1000 in
    let resto = n % 1000 in
    part_if (ltb 0 miles)
      (if miles == 1 then codes "mil" else apocope (hasta_mil miles) ++ codes " mil")
    ++ part_if (ltb 0 resto) (hasta_mil resto)

abbrev pub con_millones : Option Words → List Text → Option Words
con_millones none partes = none
con_millones (some out_of_range) partes = some out_of_range
con_millones (some (words s)) partes =
    some (words (join_all ((apocope s ++ codes " millones") ∷ partes)))

-- A natural: the tests for a negative number and for a fraction do not arise.
unfoldable pub entero_en_letras : ℕ → ℕ → Option Words
entero_en_letras zero n = none
entero_en_letras (suc fuel) n =
    let dentro = entero_en_letras fuel (n / 1000000) in
    if ltb largest n
    then some out_of_range
    else if n == 0
    then some (words (codes "cero"))
    else if ltb 0 (n / 1000000)
    then if n / 1000000 == 1
      then some (words (join_all (codes "un millón" ∷ miles_y_resto n)))
      else con_millones dentro (miles_y_resto n)
    else some (words (join_all (miles_y_resto n)))
