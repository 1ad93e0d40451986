-- ===== src/Rdbm/Tables/Extending.antt =====
-- Which attributes a class has after the inclusion of other classes.
use community_edition_setup.Prelude.{
  String, ◌≡◌, refl, sym, ◌∙◌, ap, inl, inr, Bool, true, false, not, ◌&&◌, ◌||◌, Bool-cases, Option,
  none, some, List, [], ◌∷◌, ◌++◌, ◌==◌, eq_iff, eq_refl, arith, any, ok, or_raise, key_error,
  >>=-eq-ok,
}
use community_edition_setup.Prelude.Dict
use community_edition_setup.Prelude.Dict.{Dict, contains, get-set}
use community_edition_setup.Rdbm.Tables.{
  SqlOptions, ObjectClass, Classes, extend, extend_by, extend_by_options, without_top,
}

abbrev attributes_in : Option ObjectClass → List String
attributes_in none = []
attributes_in (some o) = o.attributes

-- Whether a class of the schema lists an attribute.
abbrev pub lists : Classes → String → String → Bool
lists classes a o = contains (attributes_in (Dict.get classes o)) a

-- The further attributes and the classes that the options of a class name.
abbrev pub more_of : Option SqlOptions → List String
more_of none = []
more_of (some sql) = sql.more

abbrev names_in : Option (List String) → List String
names_in none = []
names_in (some names) = names

abbrev pub included_of : Option SqlOptions → List String
included_of none = []
included_of (some sql) = names_in sql.include_object_class

contains-append :
    (xs ys : List String) (a : String) → contains (xs ++ ys) a ≡ (contains xs a || contains ys a)
contains-append [] ys a = refl
contains-append (x ∷ xs) ys a = ground (arith, contains-append xs ys a)

absorb :
    (x : Bool) (p q : String → Bool) (os : List String)
    → ((o : String) → (x || p o) ≡ (x || q o))
    → (x || any p os) ≡ (x || any q os)
absorb x p q [] h = refl
absorb x p q (o ∷ os) h = ground (arith, h o, absorb x p q os h)

found_class : {A : Type 0} (o : Option A) (x : A) → or_raise key_error o ≡ ok x → o ≡ some x
found_class none x h = cc
found_class (some y) x h = cc

out_is : (classes out : Classes) → ok classes ≡ ok out → classes ≡ out
out_is classes out h = cc

lists-set :
    (name : String) (attrs : List String) (classes : Classes) (obj : ObjectClass) (a o : String)
    → Dict.get classes name ≡ some obj
    → lists (Dict.set classes name (record obj { attributes = obj.attributes ++ attrs })) a o
      ≡ (lists classes a o || (name == o && contains attrs a))
lists-set name attrs classes obj a o there =
    let new : ObjectClass = record obj { attributes = obj.attributes ++ attrs } in
    let now = get-set classes name o new in
    elim (Bool-cases (name == o)) [
      | inl same ↦
          let e : Dict.get classes o ≡ some obj =
            ap (Dict.get classes) (sym ((eq_iff name o).0 same)) ∙ there in
          let now' : Dict.get (Dict.set classes name new) o ≡ some new = now ∙ rw same refl in
          rw (now', e, same) (contains-append obj.attributes attrs a)
      | inr other ↦
          let now' : Dict.get (Dict.set classes name new) o ≡ Dict.get classes o =
            now ∙ rw other refl in
          rw (now', other) (ground arith)
    ]

lists-extend :
    (name : String) (attrs : List String) (classes next : Classes) (a o : String)
    → extend name attrs classes ≡ ok next
    → lists next a o ≡ (lists classes a o || (name == o && contains attrs a))
unfolding extend
lists-extend name attrs classes next a o h =
    let (obj, e, made) = >>=-eq-ok (or_raise key_error (Dict.get classes name)) _ h in
    let there = found_class (Dict.get classes name) obj e in
    let same : Dict.set classes name (record obj { attributes = obj.attributes ++ attrs }) ≡ next =
      cc made in
    ap (λ (c : Classes). lists c a o) (sym same) ∙ lists-set name attrs classes obj a o there

-- `f` and `g` differ at `name` only, where `f` has more.
absorbed :
    (name : String) (f g : String → Bool) (z : Bool)
    → ((o : String) → f o ≡ (g o || (name == o && z)))
    → (o : String) → (f name || f o) ≡ (f name || g o)
absorbed name f g z step o = elim (Bool-cases (name == o)) [
  | inl same ↦ alike (f name) (f o) (g o) z (ap f ((eq_iff name o).0 same)) (step o ∙ rw same refl)
  | inr other ↦ ap (λ b. f name || b) (step o ∙ rw other (plain (g o)))
]
  where
    alike : (fn fo go z' : Bool) → fn ≡ fo → fo ≡ (go || (true && z')) → (fn || fo) ≡ (fn || go)
    alike fn fo go z' e h = ground arith

    plain : (go : Bool) → (go || false) ≡ go
    plain go = ground arith

after_step :
    (f g : String → Bool) (name : String) (z : Bool) (others : List String)
    → ((o : String) → f o ≡ (g o || (name == o && z)))
    → (f name || any f others) ≡ (g name || (z || any g others))
after_step f g name z others step =
    absorb (f name) f g others (absorbed name f g z step)
    ∙ rw (step name, eq_refl name) (ground arith)

lists-extend_by :
    (name : String) (others : List String) (classes out : Classes) (a : String)
    → extend_by name others classes ≡ ok out
    → lists out a name ≡ (lists classes a name || any (lists classes a) others)
unfolding extend_by
lists-extend_by name [] classes out a h =
    ap (λ (c : Classes). lists c a name) (sym (out_is classes out h)) ∙ ground arith
lists-extend_by name (other ∷ others) classes out a h =
    let (obj, e, h1) = >>=-eq-ok (or_raise key_error (Dict.get classes other)) _ h in
    let (next, n, h2) = >>=-eq-ok (extend name obj.attributes classes) _ h1 in
    let there = found_class (Dict.get classes other) obj e in
    let step = λ (o : String).
      lists-extend name obj.attributes classes next a o n
      ∙ ap (λ r. lists classes a o || (name == o && contains (attributes_in r) a)) (sym there) in
    lists-extend_by name others next out a h2
    ∙ after_step (lists next a) (lists classes a) name (lists classes a other) others step

lists-extend_by-other :
    (name : String) (others : List String) (classes out : Classes) (a o : String)
    → (name == o) ≡ false
    → extend_by name others classes ≡ ok out
    → lists out a o ≡ lists classes a o
unfolding extend_by
lists-extend_by-other name [] classes out a o differs h =
    ap (λ (c : Classes). lists c a o) (sym (out_is classes out h))
lists-extend_by-other name (other ∷ others) classes out a o differs h =
    let (obj, e, h1) = >>=-eq-ok (or_raise key_error (Dict.get classes other)) _ h in
    let (next, n, h2) = >>=-eq-ok (extend name obj.attributes classes) _ h1 in
    lists-extend_by-other name others next out a o differs h2
    ∙ lists-extend name obj.attributes classes next a o n
    ∙ rw differs (ground arith)

lists-included :
    (name : String) (included : Option (List String)) (next out : Classes) (a : String)
    → (elim included [ none ↦ ok next | some others ↦ extend_by name others next ]) ≡ ok out
    → lists out a name ≡ (lists next a name || any (lists next a) (names_in included))
lists-included name none next out a h =
    ap (λ (c : Classes). lists c a name) (sym (out_is next out h)) ∙ ground arith
lists-included name (some others) next out a h = lists-extend_by name others next out a h

included-other :
    (name : String) (included : Option (List String)) (next out : Classes) (a o : String)
    → (name == o) ≡ false
    → (elim included [ none ↦ ok next | some others ↦ extend_by name others next ]) ≡ ok out
    → lists out a o ≡ lists next a o
included-other name none next out a o differs h =
    ap (λ (c : Classes). lists c a o) (sym (out_is next out h))
included-other name (some others) next out a o differs h =
    lists-extend_by-other name others next out a o differs h

lists-options :
    (name : String) (sql : Option SqlOptions) (classes out : Classes) (a : String)
    → extend_by_options name sql classes ≡ ok out
    → lists out a name ≡ (
        lists classes a name
        || (contains (more_of sql) a || any (lists classes a) (included_of sql)))
unfolding extend_by_options
lists-options name none classes out a h =
    ap (λ (c : Classes). lists c a name) (sym (out_is classes out h)) ∙ ground arith
lists-options name (some sql) classes out a h =
    let (next, n, h1) = >>=-eq-ok (extend name sql.more classes) _ h in
    lists-included name sql.include_object_class next out a h1
    ∙ after_step (lists next a) (lists classes a) name (contains sql.more a)
        (names_in sql.include_object_class) (λ o. lists-extend name sql.more classes next a o n)

options-other :
    (name : String) (sql : Option SqlOptions) (classes out : Classes) (a o : String)
    → (name == o) ≡ false
    → extend_by_options name sql classes ≡ ok out
    → lists out a o ≡ lists classes a o
unfolding extend_by_options
options-other name none classes out a o differs h =
    ap (λ (c : Classes). lists c a o) (sym (out_is classes out h))
options-other name (some sql) classes out a o differs h =
    let (next, n, h1) = >>=-eq-ok (extend name sql.more classes) _ h in
    included-other name sql.include_object_class next out a o differs h1
    ∙ lists-extend name sql.more classes next a o n
    ∙ rw differs (ground arith)

any-without_top :
    (p : String → Bool) (sup : List String)
    → any p (without_top sup) ≡ any (λ o. not (o == "top") && p o) sup
unfolding without_top
any-without_top p [] = refl
any-without_top p (s ∷ sup) = ground (arith, any-without_top p sup)

-- The attributes that a class is to have: its own, the further ones of its options, and those of the
-- classes that its options include and of its superclasses but `top`, as the schema lists them.
abbrev pub wanted : ObjectClass → Classes → String → String → Bool
wanted obj classes name a =
    lists classes a name
    || contains (more_of obj.sql) a
    || any (lists classes a) (included_of obj.sql)
    || any (λ o. not (o == "top") && lists classes a o) obj.sup

same_others :
    (name : String) (f g : String → Bool)
    → ((o : String) → (name == o) ≡ false → f o ≡ g o)
    → (g name ≡ true → f name ≡ true)
    → (o : String) → (f name || f o) ≡ (f name || g o)
same_others name f g h grows o = elim (Bool-cases (name == o)) [
  | inl same ↦
      let e = (eq_iff name o).0 same in alike (f name) (f o) (g name) (g o) (ap f e) (ap g e) grows
  | inr other ↦ ap (λ b. f name || b) (h o other)
]
  where
    alike :
        (fn fo gn go : Bool) → fn ≡ fo → gn ≡ go → (gn ≡ true → fn ≡ true) → (fn || fo) ≡ (fn || go)
    alike fn fo true go e d k = ground (arith, k refl)
    alike fn fo false go e d k = ground arith

regroup : (x y z w : Bool) → ((x || (y || z)) || w) ≡ (((x || y) || z) || w)
regroup x y z w = ground arith

pub lists-full :
    (name : String) (obj : ObjectClass) (classes included full : Classes) (a : String)
    → extend_by_options name obj.sql classes ≡ ok included
    → extend_by name (without_top obj.sup) included ≡ ok full
    → lists full a name ≡ wanted obj classes name a
lists-full name obj classes included full a h k =
    let step = lists-options name obj.sql classes included a h in
    lists-extend_by name (without_top obj.sup) included full a k
    ∙ absorb (lists included a name) (lists included a) (lists classes a) (without_top obj.sup) (
        same_others name (lists included a) (lists classes a)
          (λ o differs. options-other name obj.sql classes included a o differs h)
          (λ own. step ∙ rw own refl))
    ∙ rw (step, any-without_top (lists classes a) obj.sup)
        (regroup (lists classes a name) (contains (more_of obj.sql) a)
          (any (lists classes a) (included_of obj.sql))
          (any (λ o. not (o == "top") && lists classes a o) obj.sup))
