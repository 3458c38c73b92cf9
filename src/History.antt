-- ===== src/History.antt =====
-- src/hashtable/hashtable.c and src/hashtable/open_address/oa_hashtable.c promise one thing: a map
-- from keys to nodes. Here a history of calls is a derivation, with any memory at each call, and the
-- map that it promises a function.
mod Tests
use mathlib.Core.Path.{fun_ext, subst}
use mathlib.Core.Option.{some-injective}
use c2x_examples.Base.{
  ℕ, ◌≡◌, refl, sym, ap, ◌∙◌, Bool, true, false, true≢false, Option, none, some, List, [], ◌∷◌,
  Bytes, if◌then◌else◌, is_some, inl, inr,
}
use c2x_examples.Strings.{str_eq}
use c2x_examples.Run.{ok}
use c2x_examples.Memory.{Memory}
use c2x_examples.HashTable
use c2x_examples.HashTable.{Node}
use c2x_examples.HashTable.Laws
use c2x_examples.HashTable.Update
use c2x_examples.HashTable.Update.{assigned}
use c2x_examples.OpenTable
use c2x_examples.OpenTable.Search
use c2x_examples.OpenTable.Change
use c2x_examples.OpenTable.Change.Laws as OpenLaws

abbrev pub KeyMap : Type 0
KeyMap = Bytes → Option Node

pub data Call : Type 0 where
  set : Bytes → Option Bytes → ℕ → Option ℕ → Call
  remove : Bytes → Call

-- What a call promises of the map.
pub apply : Call → KeyMap → KeyMap
apply (set text value bytes cleanup) f k =
    if str_eq text k then some (assigned text value bytes cleanup) else f k
apply (remove text) f k = if str_eq text k then none else f k

pub apply_all : List Call → KeyMap → KeyMap
apply_all [] f = f
apply_all (c ∷ calls) f = apply_all calls (apply c f)

abbrev pub chained_map : HashTable.HashTable → KeyMap
chained_map t k = HashTable.hash_lookup (some t) (some k)

abbrev pub open_map : OpenTable.HashTable → KeyMap
open_map t k = OpenTable.hash_lookup (some t) (some k)

-- Calls on a chained table, none of which fails.
pub data ChainedRun : HashTable.HashTable → List Call → HashTable.HashTable → Type 0 where
  stop : {t : HashTable.HashTable} → ChainedRun t [] t
  set :
      {t t' u : HashTable.HashTable} {text : Bytes} {value : Option Bytes} {bytes : ℕ}
      {cleanup : Option ℕ} {later : List Call} (m : Memory)
      → (HashTable.hash_set (some t) (some text) value bytes cleanup m).0 ≡ (true, some t')
      → ChainedRun t' later u
      → ChainedRun t (Call.set text value bytes cleanup ∷ later) u
  remove :
      {t t' u : HashTable.HashTable} {text : Bytes} {later : List Call} (m : Memory)
      → (HashTable.hash_remove (some t) (some text) m).0 ≡ ok (some t')
      → ChainedRun t' later u
      → ChainedRun t (Call.remove text ∷ later) u

-- Calls on an open table, none of which fails.
pub data OpenRun : OpenTable.HashTable → List Call → OpenTable.HashTable → Type 0 where
  stop : {t : OpenTable.HashTable} → OpenRun t [] t
  set :
      {t t' u : OpenTable.HashTable} {text : Bytes} {value : Option Bytes} {bytes i : ℕ}
      {cleanup : Option ℕ} {later : List Call} (m : Memory)
      → (Change.hash_set (some t) (some text) value bytes cleanup m).0 ≡ (some i, some t')
      → OpenRun t' later u
      → OpenRun t (Call.set text value bytes cleanup ∷ later) u
  remove :
      {t t' u : OpenTable.HashTable} {text : Bytes} {later : List Call} (m : Memory)
      → (Change.hash_remove (some t) (some text) m).0 ≡ some t'
      → OpenRun t' later u
      → OpenRun t (Call.remove text ∷ later) u

table_eq :
    {A B : Type 0} {a b : A} {t u : B} → ◌≡◌ {A = A × Option B} (a, some t) (b, some u) → t ≡ u
table_eq e = some-injective _ _ (ap (λ r. r.1) e)

-- Every history of calls on a chained table within the invariant, none of which fails, leaves a
-- table within the invariant whose map is the one that the calls promise.
pub chained-refines :
    (t u : HashTable.HashTable) (calls : List Call)
    → Laws.WellFormed t
    → ChainedRun t calls u
    → Laws.WellFormed u × (chained_map u ≡ apply_all calls (chained_map t))
unfolding apply_all apply
chained-refines t u calls w stop = (w, refl)
chained-refines t u calls w (set {t'} {text} {value} {bytes} {cleanup} {later} m e rest) =
    elim (Update.hash_set-Maps t w text value bytes cleanup m) [
      | inl (refused, _) ↦ absurd (true≢false (ap (λ r. r.0) (sym e ∙ refused)))
      | inr (t'', done, w', maps) ↦
          let same : t'' ≡ t' = table_eq (sym done ∙ e) in
          let (w'', all) = chained-refines t' u later (subst Laws.WellFormed same w') rest in
          (
            w'',
            all
                ∙ ap (apply_all later) (
                    fun_ext (
                      subst (Update.Maps t text (some (assigned text value bytes cleanup))) same
                        maps)),
          )
    ]
chained-refines t u calls w (remove {t'} {text} {later} m e rest) =
    let (t'', done, w', maps) = Update.hash_remove-Maps t w text m in
    let same : t'' ≡ t' = cc in
    let (w'', all) = chained-refines t' u later (subst Laws.WellFormed same w') rest in
    (w'', all ∙ ap (apply_all later) (fun_ext (subst (Update.Maps t text none) same maps)))

-- Every history of calls on an open table within the invariant, none of which fails, leaves a table
-- within the invariant whose map is the one that the calls promise.
pub open-refines :
    (t u : OpenTable.HashTable) (calls : List Call)
    → Search.WellFormed t
    → OpenRun t calls u
    → Search.WellFormed u × (open_map u ≡ apply_all calls (open_map t))
unfolding apply_all apply
open-refines t u calls w stop = (w, refl)
open-refines t u calls w (set {t'} {text} {value} {bytes} {i} {cleanup} {later} m e rest) =
    let (j, t'', done, w', out) = OpenLaws.hash_set-SetOutcome t w text value bytes cleanup m in
    let same : t'' ≡ t' = table_eq (sym done ∙ e) in
    let found : j ≡ some i = ap (λ r. r.0) (sym done ∙ e) in
    let maps : OpenLaws.Maps t text (some (assigned text value bytes cleanup)) t'' =
      subst (λ j. OpenLaws.SetOutcome t w text value bytes cleanup m j t'') found out in
    let (w'', all) = open-refines t' u later (subst Search.WellFormed same w') rest in
    (
      w'',
      all
          ∙ ap (apply_all later) (
              fun_ext (
                subst (OpenLaws.Maps t text (some (assigned text value bytes cleanup))) same maps)),
    )
open-refines t u calls w (remove {t'} {text} {later} m e rest) =
    let (t'', done, w', maps) = OpenLaws.hash_remove-Removed t w text m in
    let same : t'' ≡ t' = some-injective _ _ (sym done ∙ e) in
    let (w'', all) = open-refines t' u later (subst Search.WellFormed same w') rest in
    (w'', all ∙ ap (apply_all later) (fun_ext (subst (OpenLaws.Maps t text none) same maps)))

-- A chained table and an open table within their invariants that find the same nodes still do so
-- after one history of calls, none of which fails on either.
pub tables-agree :
    (t u : HashTable.HashTable) (t' u' : OpenTable.HashTable) (calls : List Call)
    → Laws.WellFormed t
    → Search.WellFormed t'
    → ((k : Bytes) → chained_map t k ≡ open_map t' k)
    → ChainedRun t calls u
    → OpenRun t' calls u'
    → (k : Bytes) → chained_map u k ≡ open_map u' k
tables-agree t u t' u' calls w w' start run run' k =
    let left = (chained-refines t u calls w run).1 in
    let right = (open-refines t' u' calls w' run').1 in
    ap (λ f. f k) (left ∙ ap (apply_all calls) (fun_ext start) ∙ sym right)
