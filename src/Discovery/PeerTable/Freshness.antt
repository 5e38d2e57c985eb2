-- ===== src/Discovery/PeerTable/Freshness.antt =====
-- Which peers the table has after a run of calls.
use no_cap_kvm.Prelude.{
  ℕ, suc, ◌-◌, ◌≡◌, refl, Option, none, some, List, [], ◌∷◌, ltb, ◌==◌, if◌then◌else◌, arith,
}
use no_cap_kvm.Prelude.Assoc.{
  lookup, SortedFrom, SortedFrom-weaken, insert-SortedFrom, lookup-insert, lookup_below,
}
use no_cap_kvm.Discovery.Types.{PeerInfo}
use no_cap_kvm.Discovery.PeerTable.{PeerTable, upsert, prune}

-- An entry that is too old is none.
abbrev pub fresh : ℕ → ℕ → Option PeerInfo → Option PeerInfo
fresh now max_age none = none
fresh now max_age (some peer) = if ltb max_age (now - peer.last_seen) then none else some peer

pub prune_lem :
    (lo id now max_age : ℕ) (peers : PeerTable)
    → SortedFrom lo peers
    → SortedFrom lo (prune peers now max_age)
      × (lookup id (prune peers now max_age) ≡ fresh now max_age (lookup id peers))
unfolding prune
prune_lem lo id now max_age [] s = (tt, refl)
prune_lem lo id now max_age ((k, peer) ∷ peers) s =
    let rest = prune_lem (suc k) id now max_age peers s.1 in
    ground (
      arith,
      SortedFrom-weaken {lo = lo} {hi = suc k} (prune peers now max_age),
      lookup_below (suc k) id (prune peers now max_age),
    )

-- The calls that change the table.
pub data Call : Type 0 where
  heard : PeerInfo → Call
  pruned : ℕ → ℕ → Call

-- The table after a history of calls, the latest first.
unfoldable pub table : List Call → PeerTable
table [] = []
table (heard peer ∷ calls) = upsert (table calls) peer
table (pruned now max_age ∷ calls) = prune (table calls) now max_age

-- What was last heard of a device, unless a later prune found it too old.
abbrev pub last_heard : ℕ → List Call → Option PeerInfo
last_heard id [] = none
last_heard id (heard peer ∷ calls) = if peer.device_id == id then some peer else last_heard id calls
last_heard id (pruned now max_age ∷ calls) = fresh now max_age (last_heard id calls)

table-Sorted : (calls : List Call) → SortedFrom 0 (table calls)
unfolding table upsert
table-Sorted [] = tt
table-Sorted (heard peer ∷ calls) =
    insert-SortedFrom 0 peer.device_id peer (table calls) (omega arith) (table-Sorted calls)
table-Sorted (pruned now max_age ∷ calls) =
    (prune_lem 0 0 now max_age (table calls) (table-Sorted calls)).0

-- After any announcements and prunes the table has, for each device, its latest announcement, unless
-- a prune after that announcement found it older than its limit, and nothing else.
pub lookup-table : (id : ℕ) (calls : List Call) → lookup id (table calls) ≡ last_heard id calls
unfolding table upsert
lookup-table id [] = refl
lookup-table id (heard peer ∷ calls) =
    rw (lookup-insert id peer.device_id peer (table calls), lookup-table id calls) refl
lookup-table id (pruned now max_age ∷ calls) =
    rw ((prune_lem 0 id now max_age (table calls) (table-Sorted calls)).1, lookup-table id calls)
      refl
