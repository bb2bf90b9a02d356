-- ===== src/Tests/Queues.antt =====
-- Theorems on `dynamic_linear_buffer` at a small buffer.
use asio_extensions.Prelude.{◌+◌, ◌-◌, ◌<◌, ◌≡◌, ◌⊎◌, inl, inr, refl, [], ◌∷◌, ◌++◌, take, arith}
use asio_extensions.LinearBuffer.{
  ◌>>=◌, ok, throw, length_error, bad_alloc, contents, size_mod, resize,
}
use asio_extensions.LinearBuffer.Growth.{IsValid, NoMemory}
use asio_extensions.DynamicBuffer.{
  Dynamic, Region, npos, size, data_at, prepare_from, prepare, prepare_ec, commit, grow, shrink,
  fill,
}
use asio_extensions.DynamicBuffer.Queue.{
  IsQueue, queue, Prepared, prepare_result, prepare-fill-commit,
}
use asio_extensions.DynamicBuffer.Window.{
  data_at_region, data_at_wraps, grow_result, shrink_lem, or_throw, prepare_ec-eq-prepare,
}
use asio_extensions.Tests.Buffers.{zeroed, three, three-IsValid}

-- before and after a `prepare`
abbrev fresh : Dynamic
fresh = record { target = three; size_ = npos; max_size = 8 }

abbrev taken_over : Dynamic
taken_over = record { target = three; size_ = 2; max_size = 8 }

fresh-IsQueue : IsQueue fresh
fresh-IsQueue = record { valid = three-IsValid; max_le = omega arith; taken = inl refl }

taken-IsQueue : IsQueue taken_over
taken-IsQueue = record {
  valid = three-IsValid;
  max_le = omega arith;
  taken = inr (omega arith, omega arith);
}

prepare_result_example :
    ((8 < 5) × (prepare zeroed fresh 2 ≡ throw length_error))
    ⊎ (NoMemory zeroed three 5 × (prepare zeroed fresh 2 ≡ throw bad_alloc))
    ⊎ ((e : Dynamic) × (r : Region) × (prepare zeroed fresh 2 ≡ ok (e, r)) × Prepared fresh 2 e r)
prepare_result_example = prepare_result zeroed {d = fresh} 2 fresh-IsQueue

abbrev grown : Dynamic
grown = record {
  target = record { store = 1 ∷ 2 ∷ 3 ∷ 9 ∷ []; capacity = 4; size = 4; max_size = 8 };
  size_ = 2;
  max_size = 8;
}

prepare_runs : prepare zeroed taken_over 2 ≡ ok (grown, record { offset = 2; len = 2 })
unfolding prepare prepare_from resize
prepare_runs = refl

prepare-fill-commit_example :
    (f : Dynamic) × (commit zeroed (fill grown (record { offset = 2; len = 2 }) (7 ∷ 8 ∷ [])) 1
      ≡ ok f)
    × IsQueue f
    × (queue f ≡ queue taken_over ++ take 1 (7 ∷ 8 ∷ []))
prepare-fill-commit_example =
    prepare-fill-commit zeroed {d = taken_over} {e = grown} {r = record { offset = 2; len = 2 }} 2 1
      (7 ∷ 8 ∷ []) taken-IsQueue (λ e. omega arith) prepare_runs (omega arith) (omega arith)

data_at_region_example : ((data_at fresh 1 9).offset ≡ 1) × ((data_at fresh 1 9).len ≡ 2)
data_at_region_example = data_at_region fresh 1 9 (omega arith) (omega arith) (omega arith)

data_at_wraps_example : (data_at fresh 2 (size_mod - 1)).len ≡ size_mod - 1
data_at_wraps_example =
    data_at_wraps fresh 2 (size_mod - 1) (omega arith) (omega arith) (omega arith) (omega arith)

grow_result_example :
    ((8 < 5) × (grow zeroed fresh 2 ≡ throw length_error))
    ⊎ (NoMemory zeroed three 5 × (grow zeroed fresh 2 ≡ throw bad_alloc))
    ⊎ ((e : Dynamic) × (grow zeroed fresh 2 ≡ ok e)
        × IsValid e.target
        × (size e ≡ size fresh + 2)
        × (take (size fresh) (contents e.target) ≡ contents three))
grow_result_example =
    grow_result zeroed {d = fresh} 2 three-IsValid refl (omega arith) (omega arith)

shrink_lem_example :
    (e : Dynamic) × (shrink zeroed fresh 1 ≡ ok e)
    × IsValid e.target
    × (size e ≡ size fresh - 1)
    × (contents e.target ≡ take (size fresh - 1) (contents three))
shrink_lem_example = shrink_lem zeroed {d = fresh} 1 three-IsValid refl (omega arith)

prepare_ec-eq-prepare_example : prepare zeroed fresh 20 ≡ (prepare_ec zeroed fresh 20 >>= or_throw)
prepare_ec-eq-prepare_example = prepare_ec-eq-prepare zeroed fresh 20
