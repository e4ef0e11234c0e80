-- ===== src/Channel/Tests.antt =====
-- A channel in an empty epoll instance.
use cc_learning.Base.{refl, [], ◌∷◌, none}
use cc_learning.Channel.{new_channel, Poller, enable_reading, disable_all}
use cc_learning.Channel.Table.{table}
use cc_learning.Channel.Sync.{enables_reading, disables_all, step, run, Synced, run-Synced}

abbrev empty : Poller table
unfolding table
empty = record { kernel = λ fd. none; channels = []; reports = [] }

run-Synced_example :
    let (c, p) = enable_reading table (new_channel 1 7) empty in
    Synced table 0 (disable_all table c p)
unfolding run step table
run-Synced_example = run-Synced table (enables_reading ∷ disables_all ∷ []) 1 7 empty refl refl
