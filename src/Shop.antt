-- ===== src/Shop.antt =====
-- `ShopService` of backend/src/shop/shop.service.ts.
pub mod Roster
pub mod Offers
pub mod Mutations
pub mod Action
mod Tests
