-- ===== src/OrderManager/Exposure.antt =====
-- Each fill becomes exposure once: what `collect_new_exposure_deltas` reports over a history.
use rtt.Prelude.{
  Bool, ◌||◌, any, map, suc, ◌+◌, ◌≡◌, refl, true, false, List, [], ◌∷◌, All, length, if◌then◌else◌,
  arith,
}
use rtt.Order.{Text, same, same_self, text_ord}
use rtt.BTreeMap.{BTreeSet, contains, insert, IsSorted}
use rtt.BTreeMap.Size.{contains-insert, length-insert}
use rtt.BTreeMap.Sorted.{insert-IsSorted}
use rtt.OrderManager.{LocalOrderManager, ExchangeFill, ExchangeSyncSnapshot}
use rtt.OrderManager.Sync.{delta_of, insert_new, collect_fills, collect_new_exposure_deltas}

insert_new-counts :
    (k : Text) (seen : BTreeSet Text)
    → IsSorted seen
    → let (seen', fresh) = insert_new k seen in
      IsSorted seen' × (length seen' ≡ (if fresh then suc (length seen) else length seen))
unfolding insert_new
insert_new-counts k seen s =
    (insert-IsSorted k tt seen s, ground (arith, length-insert k tt seen s))

collect_fills-counts :
    (seen : BTreeSet Text) (fills : List ExchangeFill)
    → IsSorted seen
    → let (seen', deltas) = collect_fills seen fills in
      IsSorted seen' × (length deltas + length seen ≡ length seen')
unfolding collect_fills
collect_fills-counts seen [] s = (s, ground arith)
collect_fills-counts seen (f ∷ fs) s =
    let one = insert_new-counts f.fill_id seen s in
    let rest = collect_fills-counts (insert_new f.fill_id seen).0 fs one.0 in
    (rest.0, ground (arith, one.1, rest.1))

-- Managers whose seen ids are a set.
abbrev pub IsValid : LocalOrderManager → Type 0
IsValid manager = IsSorted manager.seen_fill_ids

-- The fills whose id is not known yet, each id once.
abbrev pub new_fills : (Text → Bool) → List ExchangeFill → List ExchangeFill
new_fills known [] = []
new_fills known (f ∷ fs) =
    let rest = new_fills (λ p. same p f.fill_id || known p) fs in
    if known f.fill_id then rest else f ∷ rest

collect_fills-new :
    (known : Text → Bool) (seen : BTreeSet Text) (fills : List ExchangeFill)
    → ((p : Text) → contains p seen ≡ known p)
    → (collect_fills seen fills).1 ≡ map delta_of (new_fills known fills)
unfolding collect_fills insert_new
collect_fills-new known seen [] h = refl
collect_fills-new known seen (f ∷ fs) h =
    let wider : Text → Bool = λ p. same p f.fill_id || known p in
    let rest =
      collect_fills-new wider (insert f.fill_id tt seen) fs
        (λ p. ground (arith, contains-insert p f.fill_id tt seen, h p)) in
    ground (arith, rest, h f.fill_id)

collect_fills-seen :
    (p : Text) (seen : BTreeSet Text) (fills : List ExchangeFill)
    → contains p (collect_fills seen fills).0
      ≡ (any (λ f. same p f.fill_id) fills || contains p seen)
unfolding collect_fills insert_new
collect_fills-seen p seen [] = refl
collect_fills-seen p seen (f ∷ fs) =
    ground (
      arith,
      contains-insert p f.fill_id tt seen,
      collect_fills-seen p (insert f.fill_id tt seen) fs,
    )

-- A synchronisation reports, in order, one delta for each fill whose id it sees for the first time, known
-- ids and repeated ones left out. Afterwards it knows an id exactly if it did before or a fill has it, and
-- it knows as many more ids as it reported.
pub deltas-count :
    (manager : LocalOrderManager) (snapshot : ExchangeSyncSnapshot) (p : Text)
    → IsValid manager
    → let (manager', deltas) = collect_new_exposure_deltas manager snapshot in
      IsValid manager'
      × (deltas ≡ map delta_of (new_fills (λ q. contains q manager.seen_fill_ids) snapshot.fills))
      × (contains p manager'.seen_fill_ids
          ≡ (any (λ f. same p f.fill_id) snapshot.fills || contains p manager.seen_fill_ids))
      × (length deltas + length manager.seen_fill_ids ≡ length manager'.seen_fill_ids)
unfolding collect_new_exposure_deltas
deltas-count manager snapshot p v =
    let seen = manager.seen_fill_ids in
    let counts = collect_fills-counts seen snapshot.fills v in
    (
      counts.0,
      collect_fills-new (λ q. contains q seen) seen snapshot.fills (λ q. refl),
      collect_fills-seen p seen snapshot.fills,
      counts.1,
    )

insert_new-keeps :
    (p k : Text) (seen : BTreeSet Text)
    → contains p seen ≡ true
    → contains p (insert_new k seen).0 ≡ true
unfolding insert_new
insert_new-keeps p k seen h = ground (arith, contains-insert p k tt seen)

insert_new-adds : (k : Text) (seen : BTreeSet Text) → contains k (insert_new k seen).0 ≡ true
unfolding insert_new
insert_new-adds k seen = ground (arith, contains-insert k k tt seen, same_self k)

collect_fills-keeps :
    (p : Text) (seen : BTreeSet Text) (fills : List ExchangeFill)
    → contains p seen ≡ true
    → contains p (collect_fills seen fills).0 ≡ true
unfolding collect_fills
collect_fills-keeps p seen [] h = h
collect_fills-keeps p seen (f ∷ fs) h =
    collect_fills-keeps p (insert_new f.fill_id seen).0 fs (insert_new-keeps p f.fill_id seen h)

-- The ids of these fills are known.
abbrev Known : BTreeSet Text → List ExchangeFill → Type 0
Known seen fills = All (λ (f : ExchangeFill). contains f.fill_id seen ≡ true) fills

collect_fills-Known :
    (seen : BTreeSet Text) (fills : List ExchangeFill) → Known (collect_fills seen fills).0 fills
unfolding collect_fills
collect_fills-Known seen [] = tt
collect_fills-Known seen (f ∷ fs) = (
  collect_fills-keeps f.fill_id (insert_new f.fill_id seen).0 fs (insert_new-adds f.fill_id seen),
  collect_fills-Known (insert_new f.fill_id seen).0 fs,
)

Known-collect_fills :
    (seen : BTreeSet Text) (new fills : List ExchangeFill)
    → Known seen fills
    → Known (collect_fills seen new).0 fills
Known-collect_fills seen new [] h = tt
Known-collect_fills seen new (f ∷ fs) h =
    (collect_fills-keeps f.fill_id seen new h.0, Known-collect_fills seen new fs h.1)

Known-insert_new :
    (k : Text) (seen : BTreeSet Text) (fills : List ExchangeFill)
    → Known seen fills
    → Known (insert_new k seen).0 fills
Known-insert_new k seen [] h = tt
Known-insert_new k seen (f ∷ fs) h =
    (insert_new-keeps f.fill_id k seen h.0, Known-insert_new k seen fs h.1)

Known-silent :
    (seen : BTreeSet Text) (fills : List ExchangeFill)
    → Known seen fills
    → (collect_fills seen fills).1 ≡ []
unfolding collect_fills
Known-silent seen [] h = refl
Known-silent seen (f ∷ fs) h =
    let old : (insert_new f.fill_id seen).1 ≡ false = unfold insert_new in rw h.0 in
    let rest =
      Known-silent (insert_new f.fill_id seen).0 fs (Known-insert_new f.fill_id seen fs h.1) in
    ground (arith, old, rest)

-- The manager after more snapshots.
pub after : LocalOrderManager → List ExchangeSyncSnapshot → LocalOrderManager
after manager [] = manager
after manager (s ∷ ss) = after (collect_new_exposure_deltas manager s).0 ss

after-Known :
    (manager : LocalOrderManager) (between : List ExchangeSyncSnapshot) (fills : List ExchangeFill)
    → Known manager.seen_fill_ids fills
    → Known (after manager between).seen_fill_ids fills
unfolding after collect_new_exposure_deltas
after-Known manager [] fills h = h
after-Known manager (s ∷ ss) fills h =
    after-Known (collect_new_exposure_deltas manager s).0 ss fills
      (Known-collect_fills manager.seen_fill_ids s.fills fills h)

-- A snapshot that was seen once adds no exposure when it is seen again, however many snapshots came
-- in between.
pub replayed-silent :
    (manager : LocalOrderManager) (s : ExchangeSyncSnapshot) (between : List ExchangeSyncSnapshot)
    → (collect_new_exposure_deltas (after (collect_new_exposure_deltas manager s).0 between) s).1
      ≡ []
unfolding collect_new_exposure_deltas
replayed-silent manager s between = Known-silent _ s.fills (
    after-Known (collect_new_exposure_deltas manager s).0 between s.fills
      (collect_fills-Known manager.seen_fill_ids s.fills))
