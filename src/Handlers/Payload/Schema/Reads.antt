-- ===== src/Handlers/Payload/Schema/Reads.antt =====
-- What `json.Unmarshal` in handlers/gemini.go reads without an error: texts, arrays and objects that
-- a schema allows.
use cursedns.Prelude.{
  String, ◌≡◌, refl, true, false, All-at, ap, sym, Option, none, some, List, [], ◌∷◌, In, here,
  there, ◌==◌, string_eq, eq_iff, arith,
}
use cursedns.Prelude.Json.{Json, null, truth, number, minus, text, array, object, items, members}
use cursedns.Resolver.Types.{Result, ok}
use cursedns.Handlers.Payload.Unmarshal.{
  map_ok, text_into, each_from, slice_from, fold_members, struct_into, pointer_into, texts_from,
}
use cursedns.Handlers.Payload.Schema.{
  Schema, text_of, array_of, object_of, Properties, Has, keys, Conforms, any_text, one_of, an_array,
  an_object, AllConform, none_left, also, Fit, no_more, fits, any,
}

-- reading ends well
abbrev pub Reads : {A : Type 0} → Result A → Type 0
Reads {A} r = (a : A) × (r ≡ ok a)

map_ok-Reads : {A B : Type 0} (f : A → B) (r : Result A) → Reads r → Reads (map_ok f r)
map_ok-Reads f r (a, e) = (f a, ap (map_ok f) e)

pub text_into-any :
    {d : String} (v : Json) (old : String) → Conforms (any d) v → Reads (text_into v old)
unfolding text_into
text_into-any (text s) old any_text = (s, refl)
text_into-any null old x = elim x [ ]
text_into-any (truth b) old x = elim x [ ]
text_into-any (number n) old x = elim x [ ]
text_into-any (minus n) old x = elim x [ ]
text_into-any (array vs) old x = elim x [ ]
text_into-any (object ms) old x = elim x [ ]

pub text_into-one_of :
    {d c : String} {cs : List String} (v : Json) (old : String)
    → Conforms (text_of d (c ∷ cs)) v
    → (s : String) × (text_into v old ≡ ok s) × In s (c ∷ cs)
unfolding text_into
text_into-one_of (text s) old (one_of i) = (s, refl, i)
text_into-one_of null old x = elim x [ ]
text_into-one_of (truth b) old x = elim x [ ]
text_into-one_of (number n) old x = elim x [ ]
text_into-one_of (minus n) old x = elim x [ ]
text_into-one_of (array vs) old x = elim x [ ]
text_into-one_of (object ms) old x = elim x [ ]

each_from-Reads :
    {A : Type 0} {s : Schema} (from : Json → Result A) (vs : List Json)
    → AllConform s vs
    → ((v : Json) → Conforms s v → Reads (from v))
    → Reads (each_from from vs)
unfolding each_from
each_from-Reads from [] none_left step = ([], refl)
each_from-Reads from (v ∷ vs) (also c cs) step =
    let (a, e) = step v c in
    let (rest, es) = each_from-Reads from vs cs step in (a ∷ rest, rw (e, each_from, es) refl)

pub slice_from-Reads :
    {A : Type 0} {d : String} {s : Schema} (from : Json → Result A) (v : Json)
    → Conforms (array_of d s) v
    → ((v : Json) → Conforms s v → Reads (from v))
    → Reads (slice_from from v)
unfolding slice_from
slice_from-Reads from (array vs) (an_array cs) step =
    map_ok-Reads some (each_from from (items vs)) (each_from-Reads from (items vs) cs step)
slice_from-Reads from null x step = elim x [ ]
slice_from-Reads from (truth b) x step = elim x [ ]
slice_from-Reads from (number n) x step = elim x [ ]
slice_from-Reads from (minus n) x step = elim x [ ]
slice_from-Reads from (text s) x step = elim x [ ]
slice_from-Reads from (object ms) x step = elim x [ ]

pub texts_from-Reads :
    {d e : String} (v : Json) → Conforms (array_of d (any e)) v → Reads (texts_from v)
unfolding texts_from
texts_from-Reads v c = slice_from-Reads (λ w. text_into w "") v c (λ w. text_into-any w "")

-- Reading the members of an object into a value, where the member called `key` brings about `I`
-- and the others keep it.
module _ {A : Type 0} (field : String → Json → A → Result A) (ps : Properties) (key : String)
    (I : A → Type 0) where
  abbrev pub Kept : String → A → Result A → Type 0
  Kept name a r = (a' : A) × (r ≡ ok a') × (I a → I a') × ((name == key) ≡ true → I a')

  abbrev pub ReadsFields : Type 0
  ReadsFields =
      (name : String) (s : Schema) (v : Json) (a : A)
      → Has name s ps
      → Conforms s v
      → Kept name a (field name v a)

  fold_members-Fit :
      (ms : List (String × Json)) (a : A)
      → ReadsFields
      → Fit ps ms
      → (a' : A) × (fold_members field ms a ≡ ok a') × (I a → I a') × (In key (keys ms) → I a')
  unfolding fold_members
  fold_members-Fit [] a step no_more = (a, refl, λ i. i, λ i. elim i [ ])
  fold_members-Fit ((name, v) ∷ ms) a step (fits {s = s} h c more) =
      let (a1, e, keep, bring) = step name s v a h c in
      let (a2, es, keeps, brings) = fold_members-Fit ms a1 step more in
      (
        a2,
        rw (e, fold_members, es) refl,
        λ i. keeps (keep i),
        elim [ here p ↦ keeps (bring ((eq_iff name key).1 (sym p))) | there i ↦ brings i ],
      )

  -- a member that is read into another field
  pub other_field :
      {B : Type 0} (name : String) (a : A) (f : B → A) (r : Result B)
      → Reads r
      → ((b : B) → I a → I (f b))
      → (name == key) ≡ false
      → Kept name a (map_ok f r)
  other_field name a f r (b, e) keep apart = (f b, ap (map_ok f) e, keep b, λ same. ground arith)

  pub struct_into-Fit :
      {d : String} {required : List String} (v : Json) (a : A)
      → ReadsFields
      → In key required
      → Conforms (object_of d ps required) v
      → (a' : A) × (struct_into field v a ≡ ok a') × I a'
  unfolding struct_into
  struct_into-Fit (object ms) a step needed (an_object {required} fit has) =
      let (a', e, keep, bring) = fold_members-Fit (members ms) a step fit in
      (a', e, bring (All-at (λ name. In name (keys (members ms))) required has needed))
  struct_into-Fit null a step needed x = elim x [ ]
  struct_into-Fit (truth b) a step needed x = elim x [ ]
  struct_into-Fit (number n) a step needed x = elim x [ ]
  struct_into-Fit (minus n) a step needed x = elim x [ ]
  struct_into-Fit (text s) a step needed x = elim x [ ]
  struct_into-Fit (array vs) a step needed x = elim x [ ]

  pub pointer_into-Fit :
      {d : String} {required : List String} (zero_value : A) (v : Json) (old : Option A)
      → ReadsFields
      → Conforms (object_of d ps required) v
      → Reads (pointer_into field zero_value v old)
  unfolding pointer_into
  pointer_into-Fit zero_value (object ms) none step (an_object fit has) =
      let (a, e, keep, bring) = fold_members-Fit (members ms) zero_value step fit in
      map_ok-Reads some (fold_members field (members ms) zero_value) (a, e)
  pointer_into-Fit zero_value (object ms) (some old) step (an_object fit has) =
      let (a, e, keep, bring) = fold_members-Fit (members ms) old step fit in
      map_ok-Reads some (fold_members field (members ms) old) (a, e)
  pointer_into-Fit zero_value null old step x = elim x [ ]
  pointer_into-Fit zero_value (truth b) old step x = elim x [ ]
  pointer_into-Fit zero_value (number n) old step x = elim x [ ]
  pointer_into-Fit zero_value (minus n) old step x = elim x [ ]
  pointer_into-Fit zero_value (text s) old step x = elim x [ ]
  pointer_into-Fit zero_value (array vs) old step x = elim x [ ]
