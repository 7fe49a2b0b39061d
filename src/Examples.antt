-- ===== src/Examples.antt =====
-- Each theorem at a concrete input of the code under internal/.
mod Data
mod Money
mod Wallets
mod Transactions
mod Wagers
mod Books
mod Again
mod Outbox
mod Delivery
mod Http
mod Order
mod Pages
