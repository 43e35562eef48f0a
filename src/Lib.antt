-- ===== src/Lib.antt =====
-- The browser front ends of WaddlePerf: the test client under webClient/frontend/src and the
-- manager under managerServer/frontend/src.
--
-- The web client lets a user fill in a test form; the form's fields go through the validators of
-- utils/validation.ts and, cleaned, to the server. Both front ends talk to their API through an
-- axios client whose interceptors add the access token and renew it on a 401. The manager keeps
-- who is signed in in a context, and guards its routes by it.
--
-- Files:
--   * Common and its children: names of the libraries, tests on numbers, lists.
--   * Regex, Regex/Matching: regular expressions, a search by derivatives, and the texts that an
--     expression describes.
--   * Js/Strings, Js/Splitting, Js/Number: the string methods that the code calls, over UTF-16
--     code units, and parseInt, over fractions with infinities and NaN.
--   * Validation: utils/validation.ts. validateTarget is validate_target, with the browser's URL
--     parser as an argument; Patterns has the three expressions. The children below it say what is
--     accepted: Hostname, Domain, Octet, Address, Host, Blank, Targets, Ranges, Ports, Sanitize.
--   * Form: components/TestForm.tsx, handleSubmit as handle_submit, handleTestTypeChange as
--     handle_test_type_change; Form/View is what it renders, Form/Reach the states that a user can
--     bring it to.
--   * Http: localStorage, requests and replies. Http/Interceptor is the response interceptor that
--     both API clients share; Http/Session, Http/Ends and Http/Keeps have its laws.
--   * WebApi: services/api.ts of the web client. ManagerApi: services/api.ts of the manager.
--     Types: types/index.ts.
--   * Auth: contexts/AuthContext.tsx. Routes: App.tsx, components/ProtectedRoute.tsx and the links
--     of components/Navbar.tsx of the manager; its rendered is where the redirections leave the
--     browser; Routes/Bar has the rest of the bar.
--   * Socket: services/websocket.ts, the list of all sockets that it has opened and which is the
--     current one. Runner: components/TestRunner.tsx over it, as a step for each event;
--     Runner/View is what it renders, Runner/Laws, Runner/Complete, Runner/Closed and Runner/Left
--     what holds of it. Runner/Page is the page with the test form and the trace form in it, and
--     Runner/Tracing how the trace form uses the sockets; Runner/Bounds, Runner/Sends and
--     Runner/Press say what the forms send through it, and Runner/Shared what a completion does to
--     both.
--   * Trace: components/TraceTest.tsx; its listeners are kept with the isRunning that they have
--     closed over. Trace/View is what it renders, Trace/Export the details and the file that is
--     saved, Trace/Bounds and Trace/Laws what holds of it.
--   * Speed: components/SpeedTest.tsx; the streams of a transfer take turns in the order of a list
--     of events. Speed/State, Speed/Pings, Speed/Streams and Speed/Run have its parts; Speed/Setup
--     is what it prepares, Speed/View what it renders, Speed/Laws, Speed/Counted and Speed/Outcome
--     what holds of it.
--   * Download: components/DownloadTest.tsx, runDownloadTest as run_download_test; Download/View
--     is what it renders and how it writes numbers, Download/Bounds, Download/Reading and
--     Download/Ends what holds of it.
--   * Devices: pages/Devices.tsx of the manager, with the requests in the order in which they were
--     sent; Devices/Laws says what their replies show.
--   * Devices/Page is what it renders; Devices/Actions its requests that deactivate and reactivate
--     devices, and Devices/Allowed for whom and for which devices they are made.
--   * Pages: the message of an error, which all pages of the manager build in the same way.
--   * Stats: pages/Statistics.tsx and pages/Dashboard.tsx of the manager. Stats/Counts has the
--     objects of counts and the sets, Stats/Screen and Stats/Dashboard the state and what is
--     rendered; Stats/Plain has the counts of names that no object inherits; Stats/Tallies,
--     Stats/Sorting, Stats/Sets, Stats/Order, Stats/Laws and Stats/Errors say what holds of them.
--   * Users: pages/Users.tsx, with the calls in the order in which they were made, each with the
--     page of its render; Users/Screen has the events and what is rendered, Users/Laws the calls,
--     Users/Paging the button Next, Users/Newest the call that the table waits for. Organizations:
--     pages/Organizations.tsx; Organizations/Session and Organizations/Laws say how one is
--     created. Profile: pages/Profile.tsx; Profile/View is what it renders. SignIn:
--     pages/Login.tsx of the manager.
--   * ManagerApi/Calls: the calls that wrap one request. Runner/Charts:
--     components/RealtimeCharts.tsx of the web client. Runner/Results: its
--     components/TestResults.tsx.
--   * Shell: App.tsx and components/Login.tsx of the web client; Shell/Laws says who sees the
--     tests. Shell/App is App.tsx with the page of TestRunner.tsx in it, where a call and its
--     replies are one step, and a page that the interceptor sends to the login page starts once
--     more as first_app; Shell/Quiet says what the sockets do while the tests are not shown.
--   * Theme: components/ThemeToggle.tsx in Theme/Toggle; contexts/ThemeContext.tsx and the theme
--     button of components/Navbar.tsx in Theme/Provider; Theme/Laws compares them.
--   * Website: archive/website/src. Website itself has components/CodeBlock.tsx, the menu of
--     components/Navigation.tsx and the sections of pages/docs.tsx. Website/Home and
--     Website/Pricing are the data of pages/index.tsx and of its components, Website/Docs the page
--     pages/docs.tsx, Website/Guides the pages of pages/docs, written as the blocks of
--     Website/Document. Website/Site has the pages, their links and where these lead;
--     Website/Cards and Website/Laws say what holds of cards and of blocks of code.
--   * Tests: runs at fixed inputs.
--
-- Numbers: JavaScript numbers are exact fractions here; the values that pass a validator are
-- small, so rounding does not change an answer. The averages and rates of the statistics and the
-- dashboard take the arithmetic of doubles as a parameter, of which they need only that a
-- percentage of some tests is finite; the rounding of the result to a whole number or a digit is
-- exact. The network is a list of replies, one for each request, and a call recurs on that list:
-- when it runs out the promise is pending, so no fuel is chosen. The download test recurs in the
-- same way on the rounds of its loop. What the browser, axios and JSON do is an argument or is
-- written out in Http.
--
-- Reading all pages of users takes one unit of fuel for each page; n users need n / 50 + 1.
-- Filling the data of an upload takes one for each piece; size / 65536 + 1 are enough.
--
-- Not modelled: the console, styles, static markup, the drawing of charts, the checks of fields
-- that the browser makes, what JSX makes of line breaks in its text, headings and texts of the
-- start page of the archived web site outside its lists, its component Features.tsx, which no page
-- shows, the configuration files of the builds, copies of other projects, and the programs in
-- Python and Go.
mod Common
pub mod Regex
pub mod Js
pub mod Validation
pub mod Form
pub mod Types
pub mod Http
pub mod WebApi
pub mod ManagerApi
pub mod Auth
pub mod Routes
pub mod Download
pub mod Speed
pub mod Socket
pub mod Runner
pub mod Trace
pub mod Theme
pub mod Shell
pub mod Devices
pub mod Website
pub mod Pages
pub mod Stats
pub mod Users
pub mod Organizations
pub mod Profile
pub mod SignIn
mod Tests
