-- ===== src/Streaming/Order.antt =====
-- The comparison of ranks is an order up to ties.
use gostream.Prelude.{
  ◌==◌, ltb, gtb, IsWeakOrder, IsKeyOrder, by_key-IsWeakOrder, ltb-IsKeyOrder, gtb-IsKeyOrder,
  equal_int, greater_int, greater_int-IsKeyOrder, text_less, text_less-IsWeakOrder,
}
use gostream.Streaming.{Sizes, StreamingRank, better_than}

module _ {F : Type 0} (sz : Sizes F) (floats : IsKeyOrder sz.equal sz.less) where
  -- A rank is never better than one that is better than it, and ranks of which neither is better stand
  -- in one class: what is not better than them is compared alike with both.
  pub better_than-IsWeakOrder : IsWeakOrder (better_than sz)
  unfolding better_than
  better_than-IsWeakOrder =
      by_key-IsWeakOrder (λ r. r.size_tier) ◌==◌ ltb _ ltb-IsKeyOrder
        (by_key-IsWeakOrder (λ r. r.peer_tier) ◌==◌ gtb _ gtb-IsKeyOrder
          (by_key-IsWeakOrder (λ r. r.effective_size_gb) sz.equal sz.less _ floats
            (by_key-IsWeakOrder (λ r. r.compact_tag_score) ◌==◌ gtb _ gtb-IsKeyOrder
              (by_key-IsWeakOrder (λ r. r.resolution_tier) ◌==◌ ltb _ ltb-IsKeyOrder
                (by_key-IsWeakOrder (λ r. r.candidate.seeders) equal_int greater_int _
                  greater_int-IsKeyOrder hashes)))))
    where
      hashes :
          IsWeakOrder
            (λ (r other : StreamingRank F). text_less r.candidate.hash other.candidate.hash)
      hashes = record {
        asym = λ r other. text_less-IsWeakOrder.asym r.candidate.hash other.candidate.hash;
        neg_trans = λ r other last.
            text_less-IsWeakOrder.neg_trans r.candidate.hash other.candidate.hash
              last.candidate.hash;
      }
