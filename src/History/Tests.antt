-- ===== src/History/Tests.antt =====
-- One history of calls on both tables.
use c2x_examples.Base.{◌≡◌, sym, ◌∙◌, some, none, List, [], ◌∷◌, Bytes, arith}
use c2x_examples.HashTable.Laws
use c2x_examples.HashTable.Samples
use c2x_examples.HashTable.Samples.{plenty, ant, bee, one_bucket}
use c2x_examples.HashTable.Table.{empty_buckets, empty_links}
use c2x_examples.HashTable.Table.Init
use c2x_examples.OpenTable.{blank}
use c2x_examples.OpenTable.Search
use c2x_examples.OpenTable.Search.{lookup-eq}
use c2x_examples.OpenTable.Resize.{blank-WellFormed, get-blank}
use c2x_examples.OpenTable.Change.Samples as OpenSamples
use c2x_examples.History.{
  Call, ChainedRun, OpenRun, apply_all, chained_map, open_map, chained-refines, open-refines,
  tables-agree,
}

abbrev calls : List Call
calls = Call.set bee (some ant) 1 none ∷ Call.remove bee ∷ []

chained_run : ChainedRun one_bucket calls one_bucket
chained_run =
    ChainedRun.set plenty Samples.bee_is_set
      (ChainedRun.remove plenty Samples.bee_is_removed ChainedRun.stop)

open_run : OpenRun (blank 1) calls OpenSamples.after_bee
open_run =
    OpenRun.set plenty OpenSamples.bee_is_set
      (OpenRun.remove plenty OpenSamples.bee_is_removed OpenRun.stop)

one_bucket-WellFormed : Laws.WellFormed one_bucket
unfolding empty_buckets empty_links
one_bucket-WellFormed = Init.empty-WellFormed 1 (omega arith) (omega arith)

blank-WellFormed_one : Search.WellFormed (blank 1)
blank-WellFormed_one = blank-WellFormed 1 (omega arith) (omega arith)

both_empty : (k : Bytes) → chained_map one_bucket k ≡ open_map (blank 1) k
unfolding empty_buckets empty_links
both_empty k =
    Init.lookup-empty 1 (omega arith) (omega arith) k
    ∙ sym (lookup-eq (blank 1) blank-WellFormed_one k none λ n (i, e). cc (get-blank 1 i))

chained-refines_example :
    Laws.WellFormed one_bucket × (chained_map one_bucket ≡ apply_all calls (chained_map one_bucket))
chained-refines_example =
    chained-refines one_bucket one_bucket calls one_bucket-WellFormed chained_run

open-refines_example :
    Search.WellFormed OpenSamples.after_bee
    × (open_map OpenSamples.after_bee ≡ apply_all calls (open_map (blank 1)))
open-refines_example =
    open-refines (blank 1) OpenSamples.after_bee calls blank-WellFormed_one open_run

tables-agree_example : chained_map one_bucket ant ≡ open_map OpenSamples.after_bee ant
tables-agree_example =
    tables-agree one_bucket one_bucket (blank 1) OpenSamples.after_bee calls one_bucket-WellFormed
      blank-WellFormed_one both_empty chained_run open_run ant
