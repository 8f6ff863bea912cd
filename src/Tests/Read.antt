-- ===== src/Tests/Read.antt =====
-- Reading documents: five of them in batches of three.
use mathlib.Core.Option
use datamaster.Prelude.{ℕ, ◌≡◌, refl, List, [], ◌∷◌, get_elem?}
use datamaster.Mongo.Read.{batch, read_documents, visit_batch, read_batch}
use datamaster.Mongo.Read.Visited.{bound, at_most, read_documents-visits}

abbrev five : List ℕ
five = 10 ∷ 11 ∷ 12 ∷ 13 ∷ 14 ∷ []

batches_stop : read_documents batch 3 0 five ≡ (10, 1) ∷ (11, 2) ∷ (12, 3) ∷ []
unfolding read_documents read_batch visit_batch
batches_stop = refl

read_documents-visits_example :
    get_elem? (read_documents batch 3 0 five) 2
    ≡ Option.map (λ d. (d, 3)) (get_elem? (at_most (bound batch 3 0) five) 2)
read_documents-visits_example = read_documents-visits batch 3 0 2 five
