-- ===== src/Vmware/Client/Paths.antt =====
-- app/clients/vmware/connection.py, _extract_vm_disks: the name of the datastore in the path of a file.
use Prim.Native.Char.{Char}
use Prim.Native.String
use Prim.Native.String.append.{nil, cons}
use v_machine.Prelude.{◌≡◌, refl, sym, ap, ◌∙◌, String, false, [], ◌∷◌, arith}
use v_machine.Prelude.Text.{f_string}
use v_machine.Vmware.Client.{is_bracket, strip_left, strip_right, before_separator, datastore_of}

-- no bracket in the text
unfoldable pub IsPlain : String → Type 0
IsPlain String.[] = Unit
IsPlain (String.◌∷◌ c s) = (is_bracket c ≡ false) × IsPlain s

abbrev close : Char
close = "]"

abbrev space : Char
space = " "

nil_append : (t : String) → String.◌++◌ "" t ≡ t
nil_append t = λ i. nil t i

cons_append :
    (c : Char) (s t : String) → String.◌++◌ (String.◌∷◌ c s) t ≡ String.◌∷◌ c (String.◌++◌ s t)
cons_append c s t = λ i. cons c s t i

-- "] " in front of a text
separated : (t : String) → String.◌++◌ "] " t ≡ String.◌∷◌ close (String.◌∷◌ space t)
separated t =
    cons_append close " " t
    ∙ ap (String.◌∷◌ close) (cons_append space "" t ∙ ap (String.◌∷◌ space) (nil_append t))

strip_right-append :
    (name path : String)
    → IsPlain name
    → strip_right (String.◌++◌ name (String.◌∷◌ close (String.◌∷◌ space path)))
      ≡ String.◌++◌ name (String.◌∷◌ close (String.◌∷◌ space (strip_right path)))
unfolding strip_right IsPlain
strip_right-append String.[] path h =
    ap strip_right (nil_append (String.◌∷◌ close (String.◌∷◌ space path)))
    ∙ sym (nil_append (String.◌∷◌ close (String.◌∷◌ space (strip_right path))))
strip_right-append (String.◌∷◌ c s) path h =
    rw cons_append (rw (h.0, strip_right-append s path h.1) (sym (cons_append c s _)))

before_separator-append :
    (name path : String)
    → IsPlain name
    → before_separator (String.◌++◌ name (String.◌∷◌ close (String.◌∷◌ space path))) ≡ name
unfolding before_separator IsPlain
before_separator-append String.[] path h = rw nil_append refl
before_separator-append (String.◌∷◌ c s) path h =
    rw cons_append (ground (arith, before_separator-append s path h.1, h.0))

-- The name of the datastore is what is written in the brackets of a path, if it is not empty and has no
-- bracket itself, whatever the path of the file in it.
pub datastore_of-path :
    (c : Char) (name path : String)
    → IsPlain (String.◌∷◌ c name)
    → datastore_of (f_string ("[" ∷ String.◌∷◌ c name ∷ "] " ∷ path ∷ [])) ≡ String.◌∷◌ c name
unfolding datastore_of strip_left IsPlain
datastore_of-path c name path h =
    let rest = String.◌++◌ path "" in
    ap (λ t. before_separator (strip_right (strip_left t)))
      (cons_append "[" "" _
        ∙ ap (String.◌∷◌ "[") (
            nil_append (String.◌++◌ (String.◌∷◌ c name) (String.◌++◌ "] " rest))
            ∙ cons_append c name _))
    ∙ rw h.0 (
        ap (λ t. before_separator (strip_right (String.◌∷◌ c (String.◌++◌ name t))))
          (separated rest)
        ∙ ap (λ t. before_separator (strip_right t)) (sym (cons_append c name _))
        ∙ ap before_separator (strip_right-append (String.◌∷◌ c name) rest h)
        ∙ before_separator-append (String.◌∷◌ c name) (strip_right rest) h)
