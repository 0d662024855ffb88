-- ===== src/Muduo/Poller/Tests.antt =====
-- The poller's theorems over a table.
use cpp_toy.Base.{refl, [], ◌∷◌}
use cpp_toy.Muduo.Channel.{new, set_reading, is_none_event}
use cpp_toy.Muduo.Poller.{change, remove_channel, happened, poll}
use cpp_toy.Muduo.Poller.Table.{idle, idle-Inv}
use cpp_toy.Muduo.Poller.Update.{Makes, IsSetter, next_index, change-Makes, remove_channel-Makes}
use cpp_toy.Muduo.Poller.Poll.{Polled, poll_lem}

set_reading-IsSetter : IsSetter set_reading
unfolding set_reading
set_reading-IsSetter c = (refl, refl)

change-Makes_example :
    Makes idle 4
      (record (set_reading (idle.chans 4)) {
        index = next_index new (is_none_event (set_reading (idle.chans 4)));
      })
      (change set_reading 4 idle)
change-Makes_example = change-Makes idle idle-Inv set_reading set_reading-IsSetter 4 (λ _. refl)

remove_channel-Makes_test : Makes idle 4 (idle.chans 4) (remove_channel 4 idle)
remove_channel-Makes_test = remove_channel-Makes idle idle-Inv 4 (λ _. refl)

poll_lem_example :
    Polled idle
      (record { events = 1; target = 4 } ∷ [])
      (poll (λ n. happened (record { events = 1; target = 4 } ∷ [])) idle)
poll_lem_example = poll_lem idle (λ n. happened (record { events = 1; target = 4 } ∷ [])) idle-Inv
