-- ===== src/Hierarchy/Steps.antt =====
-- What the steps of `MemoryHierarchy::access` beside the caches change.
use cache_simulator.Prelude.{ℕ, ◌≡◌, refl, arith, Bool, true, false, List}
use cache_simulator.Hierarchy.State.{MemoryHierarchy}
use cache_simulator.Hierarchy.Access.{update_stride, count, adapt, adapt_prefetch_distance}

pub update_stride_lem :
    (h : MemoryHierarchy) (a : ℕ)
    → update_stride h a ≡ record h { stride_predictor = (update_stride h a).stride_predictor }
unfolding update_stride
update_stride_lem h a = ground arith

pub count_lem :
    (h : MemoryHierarchy) (b : Bool)
    → count h b ≡ record h { l1_reads = (count h b).l1_reads; l1_writes = (count h b).l1_writes }
unfolding count
count_lem h true = refl
count_lem h false = refl

pub adapt_lem :
    (better : List Bool → List Bool → Bool) (h : MemoryHierarchy) (a : ℕ)
    → adapt better h a ≡ record h {
      adaptive_prefetcher = (adapt better h a).adaptive_prefetcher;
      prefetch_distance = (adapt better h a).prefetch_distance;
    }
unfolding adapt adapt_prefetch_distance
adapt_lem better h a = ground arith
