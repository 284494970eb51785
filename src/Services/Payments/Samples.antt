-- ===== src/Services/Payments/Samples.antt =====
-- What runs of payments and trials take.
use aegis_vpn.Base.{◌<◌, codes, [], ◌∷◌, true, arith}
use aegis_vpn.Control.Sample.{codec, hash}
use aegis_vpn.Services.Access.{Env}
use aegis_vpn.Services.Payments.{Draws}

abbrev pub env : Env
env = record { codec = codec; hash = hash; page_size = 10; bulk_add = λ s clients. true }

abbrev pub draws : Draws
draws = record { new_id = 20; new_uuid = codes "nu"; tokens = codes "tu" ∷ codes "nt" ∷ [] }

pub page_size_run : 0 < env.page_size
page_size_run = ground arith
