-- ===== src/Cache/Tests/Sequences.antt =====
-- A sequence of calls of the cache.
use toolops.Base.{◌≡◌, refl, none, some, List, [], ◌∷◌, arith}
use toolops.Base.Int.{pos}
use toolops.Base.Time.{Instant}
use toolops.Base.Text.{bytes, ◌=ᵗ◌}
use toolops.Base.StringMap.{lookup, insert, erase}
use toolops.Cache.Memory.{new_memory_cache, set, finish_get, read}
use toolops.Cache.Memory.Timed.{
  Call, gets, sets, deletes, live, answers, timed_answers, answers-timed_answers,
}
use toolops.Cache.Memory.Interleaving.{Section, cleans, sections, writes, read-sections}
use toolops.Cache.Tests.{brief}

-- A hit, a Get that comes too late and cleans up, and one after a Delete.
abbrev some_calls : List (Instant × Call)
some_calls =
    (1, sets (bytes "k") (bytes "v") (pos 10))
    ∷ (5, gets (bytes "k"))
    ∷ (12, gets (bytes "k"))
    ∷ (12, sets (bytes "k") (bytes "w") (pos 10))
    ∷ (13, gets (bytes "k"))
    ∷ (14, deletes (bytes "k"))
    ∷ (15, gets (bytes "k"))
    ∷ []

answered :
    timed_answers some_calls (λ k. none) ≡ some (bytes "v") ∷ none ∷ some (bytes "w") ∷ none ∷ []
unfolding timed_answers ◌=ᵗ◌
answered = refl

answers-timed_answers_example :
    answers some_calls (new_memory_cache brief) ≡ timed_answers some_calls (λ k. none)
answers-timed_answers_example = answers-timed_answers brief 0 some_calls (
  ground arith,
  (
    ground arith,
    (ground arith, (ground arith, (ground arith, (ground arith, (ground arith, tt))))),
  ),
)

-- A Get that has read an expired entry cleans up after another goroutine's Set.
abbrev late : List Section
late =
    Section.sets 1 (bytes "k") (bytes "v") (pos 10)
    ∷ Section.sets 2 (bytes "j") (bytes "w") (pos 10)
    ∷ Section.sets 20 (bytes "k") (bytes "x") (pos 10)
    ∷ cleans (bytes "k")
    ∷ []

read-sections_example : live 12 (writes late (λ k. none) (bytes "j")) ≡ some (bytes "w")
unfolding new_memory_cache sections set finish_get read lookup insert erase ◌=ᵗ◌
read-sections_example = read-sections brief late 12 (bytes "j") (bytes "w") refl
