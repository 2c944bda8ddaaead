-- ===== src/Store/Mem/Laws.antt =====
-- MemStore of internal/store/store.go against the contracts of Store and PendingStore.
use blockade.Prelude.{
  ltb, Bytes, lookup-insert, lookup-delete, lookup-retain, lookup, refl, inl, Bool, not, Option,
  arith,
}
use blockade.Store.Types.{PendingEntry, StoreLaws, PendingLaws, IsReliable, IsReliablePending}
use blockade.Store.Mem.{
  MemStore, is_some, is_used, mark_used, add_pending, get_pending, delete_pending,
  prune_expired_pending, mem_store, mem_pending,
}

abbrev pub spent : MemStore → Bytes → Bool
spent s k = is_some (lookup k s.used)

abbrev pub entry : MemStore → Bytes → Option PendingEntry
entry s k = lookup k s.pending

-- MemStore keeps the contract of Store: it is a set of keys, to which only MarkUsed adds.
pub mem_store-StoreLaws : StoreLaws mem_store spent
unfolding is_used mark_used
mem_store-StoreLaws = record {
  is_used_result = λ s k. inl (refl, tt);
  is_used_keeps = λ s k j. refl;
  mark_used_result = λ s now k j. inl (refl, ground (arith, lookup-insert k j tt s.used));
}

-- MemStore keeps the contract of PendingStore: a map from addresses to entries that AddPending and
-- DeletePending change at one address, and from which PruneExpiredPending, at a time past 0, removes
-- exactly those whose expiry is before that time; its two interfaces do not touch each other.
pub mem_store-PendingLaws : PendingLaws mem_store mem_pending (λ s t. t) entry spent
unfolding is_used mark_used add_pending get_pending delete_pending prune_expired_pending
mem_store-PendingLaws = record {
  add_result = λ s k j sats t. inl (refl, lookup-insert k j _ s.pending);
  get_result = λ s k. inl (refl, tt);
  get_keeps = λ s k j. refl;
  delete_result = λ s k j. inl (refl, lookup-delete k j s.pending);
  prune_keeps = λ s now k e h past late.
      ground (arith, h, lookup-retain (λ x. not (ltb x.expires_at now)) k s.pending);
  prune_removes = λ s now k e h early.
      inl (refl, ground (arith, h, lookup-retain (λ x. not (ltb x.expires_at now)) k s.pending));
  prune_adds_nothing =
      λ s now k h. ground (arith, h, lookup-retain (λ x. not (ltb x.expires_at now)) k s.pending);
  add_spent = λ s k j sats t. refl;
  get_spent = λ s k j. refl;
  delete_spent = λ s k j. refl;
  prune_spent = λ s now j. refl;
  is_used_entry = λ s k j. refl;
  mark_used_entry = λ s now k j. refl;
}

pub mem_store-IsReliable : IsReliable mem_store
unfolding is_used mark_used
mem_store-IsReliable = record {
  is_used_succeeds = λ s k. (_, refl);
  mark_used_succeeds = λ s now k. refl;
}

pub mem_store-IsReliablePending : IsReliablePending mem_pending
unfolding get_pending delete_pending
mem_store-IsReliablePending = record {
  get_succeeds = λ s k. (_, refl);
  delete_succeeds = λ s k. refl;
}
