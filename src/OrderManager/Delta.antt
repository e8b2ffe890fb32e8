-- ===== src/OrderManager/Delta.antt =====
-- app/execution/order_manager.py: the side and the quantity lead to the requested position.
use pgjp_trading.Prelude.{◌≡◌, ◌↔◌, arith}
use pgjp_trading.Prelude.Int.{ℤ, pos, negsuc, ◌+ℤ◌, ◌-ℤ◌, ◌*ℤ◌, ◌≤ℤ◌}
use pgjp_trading.Enums.{sign}
use pgjp_trading.OrderManager.{delta_to_side_and_quantity}

-- From the current position, an order of the computed side and quantity leads exactly to the
-- requested one, and the quantity is zero exactly when that is where the position is.
pub delta_to_side_and_quantity-exact :
    (current requested : ℤ)
    → (current
          +ℤ (delta_to_side_and_quantity current requested).1
            *ℤ sign (delta_to_side_and_quantity current requested).0
        ≡ requested)
      × (pos 0 ≤ℤ (delta_to_side_and_quantity current requested).1)
      × (((delta_to_side_and_quantity current requested).1 ≡ pos 0) ↔ (current ≡ requested))
unfolding delta_to_side_and_quantity ◌*ℤ◌ ◌+ℤ◌ ◌-ℤ◌
delta_to_side_and_quantity-exact (pos a) (pos b) =
    (ground arith, ground arith, (λ h. ground arith, λ h. ground arith))
delta_to_side_and_quantity-exact (pos a) (negsuc b) =
    (ground arith, ground arith, (λ h. ground arith, λ h. ground arith))
delta_to_side_and_quantity-exact (negsuc a) (pos b) =
    (ground arith, ground arith, (λ h. ground arith, λ h. ground arith))
delta_to_side_and_quantity-exact (negsuc a) (negsuc b) =
    (ground arith, ground arith, (λ h. ground arith, λ h. ground arith))
