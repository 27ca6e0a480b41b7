-- ===== src/Channel/Examples.antt =====
-- Tests of a channel of numbers, and its theorems at two journeys.
use replob_prototype.Prelude.{ℕ, ◌≡◌, ◌⊎◌, refl, true, false, some, [], ◌∷◌, ◌++◌, inl}
use replob_prototype.Journey.{constructed, acquire}
use replob_prototype.Oers.{Journeys, DetachableDoer, is_ready, detachable_doer, doer_acquire}
use replob_prototype.Channel.{Channel, Sent, finished, put, hand_first, get, get_none, close}
use replob_prototype.Channel.Order.{
  System, unused, after_put, after_get, puts, gets, here, next, values_in_order,
}
use replob_prototype.Channel.Closing.{close_lem}

abbrev all_parked : Journeys
all_parked = λ j. constructed

-- Journey 1 waits; 5 is handed to it, and 6 and 7 are queued; journey 2 gets 6.
abbrev waiting : System ℕ
waiting = after_get unused (get 1 all_parked unused.channel)

abbrev first_sent : Sent ℕ
first_sent = hand_first 5 waiting.journeys waiting.channel waiting.channel.waiters

abbrev handed_one : System ℕ
handed_one = after_put waiting 5 first_sent

abbrev second_sent : Sent ℕ
second_sent = hand_first 6 handed_one.journeys handed_one.channel handed_one.channel.waiters

abbrev queued_one : System ℕ
queued_one = after_put handed_one 6 second_sent

abbrev third_sent : Sent ℕ
third_sent = hand_first 7 queued_one.journeys queued_one.channel queued_one.channel.waiters

abbrev queued_two : System ℕ
queued_two = after_put queued_one 7 third_sent

abbrev got_one : System ℕ
got_one = after_get queued_two (get 2 queued_two.journeys queued_two.channel)

delivered_two : got_one.delivered ≡ 5 ∷ 6 ∷ []
unfolding get get_none hand_first doer_acquire acquire detachable_doer
delivered_two = refl

first_put : put 5 waiting.journeys waiting.channel ≡ some first_sent
unfolding put get get_none
first_put = refl

second_put : put 6 handed_one.journeys handed_one.channel ≡ some second_sent
unfolding put get get_none hand_first doer_acquire acquire detachable_doer
second_put = refl

third_put : put 7 queued_one.journeys queued_one.channel ≡ some third_sent
unfolding put get get_none hand_first doer_acquire acquire detachable_doer
third_put = refl

values_in_order_example :
    (got_one.given ≡ got_one.delivered ++ got_one.channel.queue)
    × (got_one.channel.queue ≡ [] ⊎ got_one.channel.waiters ≡ [])
values_in_order_example = values_in_order {s = got_one} (
    next
      (next
        (next (next (next here (gets 1)) (puts 5 first_sent first_put))
          (puts 6 second_sent second_put))
        (puts 7 third_sent third_put))
      (gets 2))

abbrev reader : DetachableDoer
reader = detachable_doer 1 all_parked

abbrev one_waits : Channel ℕ
one_waits = record { queue = []; waiters = reader ∷ []; closed = false }

reader_ready : is_ready all_parked reader ≡ true
unfolding is_ready detachable_doer
reader_ready = refl

close_lem_example :
    let r = close all_parked one_waits in
    ((r.1 reader.journey).done ≡ true)
    × (r.0.waiters ≡ [])
    × (r.0.queue ≡ [])
    × (one_waits.queue ≡ [] → (get 2 r.1 r.0).1 ≡ finished)
close_lem_example = close_lem all_parked one_waits reader 2 refl (inl refl) reader_ready
