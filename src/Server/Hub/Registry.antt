-- ===== src/Server/Hub/Registry.antt =====
-- What registering and removing a client do to every client's mailbox.
use rust_streaming_quotes.Base.{
  ℕ, ◌<◌, ◌≡◌, refl, inl, inr, Bool, true, false, List, [], ◌∷◌, ◌==◌, if◌then◌else◌, arith, Option,
  none, some, ok, err, Option-cases, ◌⊎◌, ==_iff, Bool-cases,
}
use rust_streaming_quotes.Assoc.{lookup, update, lookup-remove}
use rust_streaming_quotes.Core.Types.{StockQuote}
use rust_streaming_quotes.Server.Channel.{Channels}
use rust_streaming_quotes.Server.Hub.{
  ClientId, client_already_exists, Hub, add_client, remove_client,
}
use rust_streaming_quotes.Server.Hub.Loop.{Mailbox, view}
use rust_streaming_quotes.Server.Hub.Invariant.{IsValid, Allocated}
use rust_streaming_quotes.Server.Hub.Delivery.{mail, mailbox}

lookup-Allocated :
    (j tx next : ℕ) (m : List (ClientId × ℕ))
    → Allocated next m
    → lookup ◌==◌ j m ≡ some tx
    → tx < next
unfolding lookup
lookup-Allocated j tx next [] a e = absurd (ground arith)
lookup-Allocated j tx next ((i, k) ∷ m) a e = elim (Bool-cases (j == i)) [
  | inl h ↦ ground arith
  | inr h ↦ lookup-Allocated j tx next m a.1 (ground arith)
]

abbrev pub empty_mailbox : ℕ → Mailbox
empty_mailbox cap = record { queue = []; capacity = cap; connected = true }

abbrev pub is_registered : Option Mailbox → Bool
is_registered none = false
is_registered (some m) = true

module _ (channels : Channels StockQuote) where
  open channels use {Chan, bounded, bounded_lem}

  mail-update :
      (store : ℕ → Chan) (next : ℕ) (c : Chan) (found : Option ℕ)
      → ((tx : ℕ) → found ≡ some tx → tx < next)
      → mail channels (update store next c) found ≡ mail channels store found
  unfolding mail
  mail-update store next c none h = refl
  mail-update store next c (some tx) h = let l = h tx refl in ground arith

  add_client-mailbox :
      (hub : Hub channels) (cid j : ClientId)
      → IsValid channels hub
      → ((m : Mailbox) × (mailbox channels hub cid ≡ some m)
          × (add_client channels hub cid ≡ (hub, err (client_already_exists cid))))
        ⊎ ((mailbox channels hub cid ≡ none)
            × ((add_client channels hub cid).1 ≡ ok hub.next_chan)
            × (mailbox channels (add_client channels hub cid).0 j ≡ (
                if j == cid
                then some (empty_mailbox hub.capacity_per_client)
                else mailbox channels hub j)))
  unfolding add_client mailbox mail
  add_client-mailbox hub cid j v = elim (Option-cases (lookup ◌==◌ cid hub.clients)) [
    | inr (tx, e) ↦ inl (view channels (hub.chan tx), rw e, rw (e, add_client))
    | inl e ↦
        let others =
          mail-update hub.chan hub.next_chan (bounded hub.capacity_per_client)
            (lookup ◌==◌ j hub.clients)
            (λ tx. lookup-Allocated j tx hub.next_chan hub.clients v.allocated) in
        inr (
          rw e,
          rw (e, add_client),
          rw (e, add_client) (ground (arith, others, bounded_lem hub.capacity_per_client v.room)),
        )
  ]

  remove_client-mailbox :
      (hub : Hub channels) (cid j : ClientId)
      → (mailbox channels (remove_client channels hub cid).0 j
          ≡ (if j == cid then none else mailbox channels hub j))
        × ((remove_client channels hub cid).1 ≡ is_registered (mailbox channels hub cid))
  unfolding remove_client mailbox mail
  remove_client-mailbox hub cid j =
      (ground (arith, lookup-remove ◌==◌ ==_iff j cid hub.clients), ground arith)

  -- A registered client is refused and nothing changes; any other gets an empty mailbox of the hub's
  -- capacity; a removal takes the client's mailbox away and says whether it was registered; and either
  -- leaves the other mailboxes as they are.
  pub add_client-remove_client-mailbox :
      (hub : Hub channels) (cid j : ClientId)
      → IsValid channels hub
      → (((m : Mailbox) × (mailbox channels hub cid ≡ some m)
            × (add_client channels hub cid ≡ (hub, err (client_already_exists cid))))
          ⊎ ((mailbox channels hub cid ≡ none)
              × ((add_client channels hub cid).1 ≡ ok hub.next_chan)
              × (mailbox channels (add_client channels hub cid).0 j ≡ (
                  if j == cid
                  then some (empty_mailbox hub.capacity_per_client)
                  else mailbox channels hub j))))
        × (mailbox channels (remove_client channels hub cid).0 j
            ≡ (if j == cid then none else mailbox channels hub j))
        × ((remove_client channels hub cid).1 ≡ is_registered (mailbox channels hub cid))
  add_client-remove_client-mailbox hub cid j v =
      let (removed, told) = remove_client-mailbox hub cid j in
      (add_client-mailbox hub cid j v, removed, told)
