-- ===== src/Config/Effect.antt =====
-- What the environment does to the metrics API.
use message_queue.Prelude.{◌≡◌, refl, false, arith}
use message_queue.Prelude.Int.{ℤ, pos, leb_ℤ, ◌<ℤ◌}
use message_queue.Prelude.Text.{Text, codes}
use message_queue.Metrics.Service.{Store, new_service}
use message_queue.Metrics.Handler.{new_handler}
use message_queue.Config.{Environment, new_config_from_env, limit_from}

limit_from-positive : (v : Text) → pos 0 <ℤ limit_from v
limit_from-positive v = ground arith

keeps_positive :
    {Time Doc : Type 0} (store : Store Time Doc) (n : ℤ)
    → pos 0 <ℤ n
    → ((new_handler store n).default_limit ≡ n) × ((new_handler store n).service.default_limit ≡ n)
unfolding new_handler new_service
keeps_positive store n h = let e : leb_ℤ n (pos 0) ≡ false = ground arith in rw (e, e) (refl, refl)

-- Whatever the environment, the page size that is configured is positive, and it is the default limit
-- of the API's handler and of its service, which would replace it otherwise.
pub new_handler-new_config_from_env :
    {Time Doc : Type 0} (store : Store Time Doc) (os : Environment)
    → (pos 0 <ℤ (new_config_from_env os).default_limit)
      × ((new_handler store (new_config_from_env os).default_limit).default_limit
          ≡ (new_config_from_env os).default_limit)
      × ((new_handler store (new_config_from_env os).default_limit).service.default_limit
          ≡ (new_config_from_env os).default_limit)
unfolding new_config_from_env
new_handler-new_config_from_env store os =
    let h = limit_from-positive (os (codes "DEFAULT_PAGE_SIZE")) in
    let (k, l) = keeps_positive store (new_config_from_env os).default_limit h in (h, k, l)
