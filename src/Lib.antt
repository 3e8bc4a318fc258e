-- ===== src/Lib.antt =====
-- The services of the Nova Go backend that decide who drives whom and who is paid what.
--
-- The program is a NestJS server over a Postgres database (through Prisma) and Redis. A service is a
-- class of methods that read and write rows; several requests, and the handlers of timers, run
-- interleaved, and one statement of the database is what is atomic. The parts that are modelled:
--
--   src/trips/fare.util.ts                 Fare          the price list and the distance priced
--   src/trips/cancellation.util.ts         Cancellation  what a cancellation costs
--   src/trips/dispatch.util.ts             Dispatch      the score and the ranking of drivers
--   src/ledger                             Ledger        commission, payouts, wallet, earnings
--   src/location/excluded-drivers.store.ts Excluded      drivers a job is not offered to again
--   src/location/location.service.ts       Location      who may be offered work, and is told so
--   src/location/location.gateway.ts       Gateway       the sockets: who is online, who watches whom
--   src/launch/launch-policy.service.ts    Launch        what the pilot takes, and when
--   src/loyalty/loyalty.service.ts         Loyalty       points and tiers
--   src/trips/trips.service.ts             Trips         a ride, from its booking to its payout
--   src/delivery/delivery.service.ts       Deliveries    a parcel, from its booking to its handover
--   src/food-orders/food-orders.service.ts FoodOrders    an order, from its booking to its handover
--   src/errands/errands.service.ts         Errands       an errand, from its booking to its handover
--   src/ratings/ratings.service.ts         Ratings       one rating for a job, and the average
--   src/restaurants/restaurants.service.ts Restaurants   who may open, and the menu
--   src/auth                               Accounts      numbers, codes, sign-up, sessions, revocation
--   src/users/users.service.ts             Users         profiles, applications of drivers, queues
--   src/admin/admin.service.ts             Desk          a job assigned by hand
--   src/chat/chat.service.ts               Chat          the messages of the two people on a job
--   src/safety/safety.service.ts           Safety        the panic button
--
-- Schema has the enumerations and rows of prisma/schema.prisma with the columns that these parts use,
-- and the state Db that the services share: the tables, the excluded drivers, the audit trail of
-- trips, the entries of the ledger, and the messages sent to the apps. Common has the helpers, the
-- tables with their laws, and Action: a method is a function from the state to an answer or an
-- exception, and the state. What was written before an exception stays written, as it does in the
-- database. Books has the law of a payout followed by points. Fixtures has rows for the examples.
--
-- How the parts interact. Trips.Booking runs the guards of Launch and prices with Fare. Trips.Matching
-- searches through its parameter find_nearby, leaves out the drivers of Excluded, ranks with Dispatch
-- and offers to three; Trips.Rides has the driver's answers, Trips.Cancelling the end by
-- Cancellation, and Trips.Completion the end that pays through Ledger and Loyalty. Location keeps those
-- whom the wallet of Ledger blocks from being found. Deliveries, FoodOrders and Errands offer to one
-- driver at a time, found by Nearest; FoodOrders.Booking orders from what Restaurants keeps. Ratings
-- is called for a job that has ended. Desk writes the jobs of the four kinds. Trips.Races,
-- FoodOrders.Races, Errands.Races and Ledger.Wallet.Overlap run two requests into each other.
--
-- Users.Onboarding is how a driver comes to be one that Location allows, and Users.Mode refuses to
-- change queues by the same statuses. Users.Emails runs the requests that write an e-mail address.
--
-- Gateway is where a driver goes online and offline, which Location reads; its events run in any
-- order. Chat reads the two people of a thread off the job, and Safety keeps the job of an alarm by
-- the same test.
--
-- Accounts. bcrypt and the signing of refresh tokens are parameters, with what is known of them as
-- hypotheses of the theorems that need it. An access token is its payload; Revocation.validate is what
-- every request runs on it. The denylist in Redis is a list of keys with the times at which they
-- expire, and whether Redis answers is an argument. What ends a session is with it: setUserActive and
-- resetUserPassword of src/admin/admin.service.ts and deleteOwnAccount of src/users/users.service.ts.
-- Texts are lists of codes; the changes of case are those of the letters A to Z.
--
-- Method names are those of the source in snake case: acceptTrip is accept_trip. In Deliveries,
-- FoodOrders and Errands, in startTrip, completeTrip and cancelTrip, in the handlers of the offers'
-- timers, in toggleOpen and in requestWithdrawal, what follows the checks is an operation of its own,
-- so that other requests may run before it; its name ends in _write, but for
-- handle_decline_or_timeout. The accepts of the drivers are one conditional statement and what
-- follows it. Every other method is one step, those that check in one statement and write in another
-- too. What is shown of sequences of calls is shown of calls made one after another, each ending
-- before the next begins. The handler of a timer is an operation that may run at any later time.
-- Identifiers are numbers, and a new row's identifier is an argument. Times are milliseconds, money
-- is paisa (Fare and Cancellation: rupees), distances are metres, rates hundredths of a per cent, all
-- natural numbers without a bound; balances are integers. Doubles are exact numbers on a common
-- scale: the score of Dispatch and the rounding of Fare and of the commission are those of the real
-- formula.
--
-- All recursion is structural, so no function runs out of anything: the lists are the tables, the
-- search radii and the candidates.
--
-- Not modelled: the geographic search of Redis and the geodesic formula (arguments), the calendar and
-- the environment (arguments), writes whose failure the source ignores (they succeed here, but for
-- those of Redis in Accounts), an update of a row that does not exist (nothing happens here; the
-- source's foreign keys exclude it), the change of case of letters outside A to Z, free texts,
-- coordinates and device data, declarative validation of requests, reads for screens, notices, the
-- rest of the operations desk, uploads, support and notifications.
pub mod Common
pub mod Schema
pub mod Fixtures
pub mod Fare
pub mod Cancellation
pub mod Dispatch
pub mod Ledger
pub mod Excluded
pub mod Books
pub mod Launch
pub mod Location
pub mod Loyalty
pub mod Nearest
pub mod Deliveries
pub mod FoodOrders
pub mod Errands
pub mod Trips
pub mod Users
pub mod Accounts
pub mod Desk
pub mod Ratings
pub mod Restaurants
pub mod Chat
pub mod Safety
pub mod Gateway
