-- ===== src/Measure/Int64.antt =====
-- The arithmetic of the counters of service/metrics/metrics.go.
use outline_ss_server.Prelude.{ℕ, ◌+◌, ◌%◌, ◌<◌, ◌≡◌, refl, arith}
use outline_ss_server.Tcp.State.{ProxyMetrics}
use outline_ss_server.Measure.{
  Pointer, to_client_proxy, to_proxy_target, to_target_proxy, to_proxy_client, modulus, add_to,
}

-- The counters are 64 bits wide.
pub record IsInt64 (m : ProxyMetrics) : Type 0 where
  pub client_proxy : m.client_proxy < modulus
  pub proxy_target : m.proxy_target < modulus
  pub target_proxy : m.target_proxy < modulus
  pub proxy_client : m.proxy_client < modulus

mod_lt : (x : ℕ) → x % modulus < modulus
mod_lt x = omega arith

mod_add : (x a b : ℕ) → (((x + a) % modulus) + b) % modulus ≡ (x + (a + b)) % modulus
mod_add x a b = omega arith

mod_zero : (x : ℕ) → x < modulus → (x + 0) % modulus ≡ x
mod_zero x l = omega arith

pub add_to-zero : (c : Pointer) (m : ProxyMetrics) → IsInt64 m → add_to c 0 m ≡ m
unfolding add_to
add_to-zero to_client_proxy m v = rw (mod_zero m.client_proxy v.client_proxy) refl
add_to-zero to_proxy_target m v = rw (mod_zero m.proxy_target v.proxy_target) refl
add_to-zero to_target_proxy m v = rw (mod_zero m.target_proxy v.target_proxy) refl
add_to-zero to_proxy_client m v = rw (mod_zero m.proxy_client v.proxy_client) refl

pub add_to-add :
    (c : Pointer) (a b : ℕ) (m : ProxyMetrics) → add_to c b (add_to c a m) ≡ add_to c (a + b) m
unfolding add_to
add_to-add to_client_proxy a b m = rw (mod_add m.client_proxy a b) refl
add_to-add to_proxy_target a b m = rw (mod_add m.proxy_target a b) refl
add_to-add to_target_proxy a b m = rw (mod_add m.target_proxy a b) refl
add_to-add to_proxy_client a b m = rw (mod_add m.proxy_client a b) refl

pub add_to-IsInt64 : (c : Pointer) (n : ℕ) (m : ProxyMetrics) → IsInt64 m → IsInt64 (add_to c n m)
unfolding add_to
add_to-IsInt64 to_client_proxy n m v = record {
  client_proxy = mod_lt _;
  proxy_target = v.proxy_target;
  target_proxy = v.target_proxy;
  proxy_client = v.proxy_client;
}
add_to-IsInt64 to_proxy_target n m v = record {
  client_proxy = v.client_proxy;
  proxy_target = mod_lt _;
  target_proxy = v.target_proxy;
  proxy_client = v.proxy_client;
}
add_to-IsInt64 to_target_proxy n m v = record {
  client_proxy = v.client_proxy;
  proxy_target = v.proxy_target;
  target_proxy = mod_lt _;
  proxy_client = v.proxy_client;
}
add_to-IsInt64 to_proxy_client n m v = record {
  client_proxy = v.client_proxy;
  proxy_target = v.proxy_target;
  target_proxy = v.target_proxy;
  proxy_client = mod_lt _;
}
